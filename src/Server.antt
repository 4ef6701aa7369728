-- ===== src/Server.antt =====
-- ServerLib and its log: the event queue, the variables with their meta data, and the trends.
pub mod Daq
pub mod Collector
pub mod EventQueue
pub mod ValueTable
pub mod Meta
pub mod LogQueue
pub mod Dependants
pub mod Trend
pub mod ValueList
pub mod Dispatch
pub mod Sessions
pub mod Poll
pub mod Requests
pub mod System
pub mod Query
pub mod Statistics
pub mod Information
