-- ===== src/Tests.antt =====
-- Concrete runs of the modelled code, and the examples that its theorems apply to.
mod Flow
mod Rates
mod Hubs
mod Clients
mod Points
mod Polls
mod Access
mod Teams
mod Pages
