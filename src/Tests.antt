-- ===== src/Tests.antt =====
-- The theorems at concrete documents, and runs of the code.
mod Samples
mod Documents
mod Texts
mod Queues
mod Variables
mod Requests
mod Sessions
mod Polls
mod Http
mod Connections
