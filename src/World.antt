-- ===== src/World.antt =====
-- packages/world/src: a session's helpers.
pub mod Inbox
