-- ===== src/Osm.antt =====
-- internal/osm: the client of the OSM API.
pub mod Types
pub mod Blocks
pub mod Request
pub mod Patrols
pub mod Terms
