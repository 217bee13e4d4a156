-- ===== src/Auth.antt =====
-- The login: internal/server/auth/service.go over the store of internal/server/auth_service.go and
-- internal/server/server.go, with the checks of internal/server/validation/validation.go.

pub mod Validation
pub mod State
pub mod Store
pub mod Service
pub mod Credentials
pub mod Login
pub mod Granted
pub mod Steady
pub mod Wrong
pub mod Guesses
pub mod Checks
pub mod Columns
pub mod Update
pub mod Unlock
pub mod Tests
