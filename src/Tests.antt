-- ===== src/Tests.antt =====
-- The theorems at concrete systems.
pub mod Users
pub mod Names
pub mod Creations
pub mod Helpers
pub mod Connections
pub mod Mocks
pub mod Runs
pub mod Services
pub mod Program
pub mod Launches
pub mod Keyboards
pub mod Managers
pub mod Configs
pub mod Buses
pub mod Localed
