-- ===== src/Common.antt =====
-- pkg/common: authorization, environment variables, scopes; and the log levels of main.go.
pub mod Auth
pub mod Authorized
pub mod Env
pub mod Logging
pub mod Scope
pub mod TraceIds
pub mod Tracing
pub mod Validator
