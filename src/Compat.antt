-- ===== src/Compat.antt =====
-- The two breaking-change engines, server/cvtservice/compatibility_engine.go and
-- pkg/cvt/compatibility.go, and what their checks promise.
pub mod Change
pub mod Endpoints
pub mod Checks
pub mod Server
pub mod Embedded
pub mod Spec
pub mod Widening
pub mod Parameters
pub mod Bodies
pub mod Responses
pub mod Correct
pub mod Reflexive
pub mod Engines
mod Tests
