-- ===== src/Official.antt =====
-- src/official-agent-call.ts: the checks in front of a call of an official agent, and behind it.
-- Findings looks for sensitive data, Action picks the action and the endpoint, which Named and Selected describe, Url builds the URL, Prepare composes the
-- checks, and Course makes the call.
pub mod Findings
pub mod Clean
pub mod Action
pub mod Declared
pub mod Named
pub mod Selected
pub mod Url
pub mod Prepare
pub mod Ready
pub mod Hosts
pub mod Course
pub mod Answered
mod Tests
