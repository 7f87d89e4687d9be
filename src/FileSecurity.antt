-- ===== src/FileSecurity.antt =====
-- src/file-security.ts: addresses, URIs, media types, sizes and what of a file part may be logged.
-- `net.isIPv4`, `net.isIPv6`, the URL parser and the name service are arguments.
pub mod Numerals
pub mod Address
pub mod Uri
pub mod Media
pub mod Logged
mod Tests
