-- ===== src/User/Create/Kept.antt =====
-- What `CreateUser` leaves of the accounts where no deletion of the rollback is accepted.
use ubuntu_installer_latest.User.Service.{Service}
