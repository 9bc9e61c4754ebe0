-- ===== src/Auth.antt =====
-- Who makes a request: bearer tokens of devices, sessions of the admin pages, the refresh of OSM's
-- tokens for both, and what the proxy says about the request.
pub mod Refresh
pub mod Device
pub mod Web
pub mod Remote
