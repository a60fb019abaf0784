-- ===== src/User.antt =====
-- The User service: provd/internal/services/user/user.go and password_hash.go. Its state and
-- constructor stand here, and its operations in the modules below.
pub mod Password
pub mod Create
pub mod Validate
pub mod Service
