-- ===== src/Tests.antt =====
-- Concrete inputs for the theorems that have conditions.
pub mod Hardware
pub mod Requests
pub mod Desktop
mod Panels
mod Program
mod Paintings
mod Access
mod Races
pub mod Calls
mod Devices
mod Search
