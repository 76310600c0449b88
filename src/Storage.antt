-- ===== src/Storage.antt =====
-- storage: the cache of collected data, its database, and the box that plugins use.
pub mod Metric
pub mod Keys
pub mod Bolt
pub mod Messenger
pub mod Memorizer
pub mod DataBox
