-- ===== src/Scores.antt =====
-- The scores of patrols: internal/services/patrol_score_service.go, which reads them through a
-- cache, and internal/services/scoreupdateservice, which changes them under locks.
pub mod Locks
pub mod Update
pub mod Cache
pub mod Service
