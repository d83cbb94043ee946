-- ===== src/Windows.antt =====
-- The window manager of lfdk/lfdk.c: one pool of windows, one message box, one foreground window.
pub mod State
pub mod Requests
pub mod Hooks
pub mod Events
pub mod Messages
