-- ===== src/Hub.antt =====
-- internal/websocket/hub.go: the in-memory registry of device connections, its subscriptions and
-- its deliveries.
pub mod Messages
pub mod Registry
pub mod Subscriptions
pub mod Delivery
pub mod Sessions
pub mod Sections
