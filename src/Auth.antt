-- ===== src/Auth.antt =====
-- controlplane/src/auth/: the validation of a request's token against the keys of its provider.
pub mod Error
pub mod Types
pub mod Validator
pub mod Cache
pub mod Registry
