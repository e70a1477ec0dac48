-- ===== src/Config.antt =====
-- config/config.go: the configuration.
-- Parse: the readers of environment variables. Load: Load and validate.
pub mod Parse
pub mod Load
mod Tests
