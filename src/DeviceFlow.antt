-- ===== src/DeviceFlow.antt =====
-- The device authorization flow of internal/handlers (device_oauth.go, oauth_web.go).
pub mod UserCode
pub mod World
pub mod Token
pub mod Authorize
pub mod Web
pub mod Events
pub mod Invariant
