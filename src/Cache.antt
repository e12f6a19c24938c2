-- ===== src/Cache.antt =====
-- internal/core/cache: the caches between the network and the files.
pub mod Ring
pub mod Since
pub mod Alerts
pub mod AlertCells
pub mod AlertDelivery
pub mod Xlogs
pub mod XlogDelivery
pub mod XlogIndex
pub mod XlogReachable
pub mod XlogObjects
pub mod XlogRequests
pub mod Texts
pub mod TextRecency
