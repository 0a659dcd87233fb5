-- ===== src/Config.antt =====
-- shared/src/config_types.rs, shared/src/config_error.rs and controlplane/src/config.
pub mod Types
pub mod Errors
pub mod Validation
pub mod Validity
pub mod Loader
