-- ===== src/Iam.antt =====
-- iam-service: tokens, authorization, second factors, roles, rules and sessions.
pub mod Jwt
pub mod Authz
pub mod Access
pub mod Roles
pub mod Mfa
pub mod Rules
pub mod Sessions
pub mod Router
mod Tests
