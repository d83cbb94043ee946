-- ===== src/Main.antt =====
-- `main` of lfdk/lfdk.c: the options, the start, the loop over the keys and the end.
pub mod Loop
pub mod Options
pub mod Program
