-- ===== src/Testutils.antt =====
-- The package testutils, provd/internal/testutils: the mocks of the system's D-Bus services that the
-- tests of provd run against, and their helpers.
pub mod Actions
pub mod Description
pub mod Exports
pub mod Processes
pub mod SystemBus
pub mod PrivateBuses
pub mod GdmMock
pub mod Golden
pub mod Timedate
pub mod Hostname
pub mod Accounts
pub mod UserMock
pub mod LocaleMock
