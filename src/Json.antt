-- ===== src/Json.antt =====
-- Common/JsonFormatter and Common/JsonParser: writing and reading JSON text.
pub mod Escape
pub mod Stream
pub mod Unescape
pub mod Progress
pub mod Faults
pub mod Naming
pub mod Scan
pub mod Parser
pub mod Item
pub mod Document
pub mod Reading
pub mod RoundTrip
