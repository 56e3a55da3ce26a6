-- ===== src/Examples.antt =====
-- Runs of the model on concrete inputs.
mod Stores
mod Merges
mod Layers
mod Formats
mod Tries
mod Files
mod Commits
mod Notes
mod Texts
mod Sweeps
mod Braces
mod Records
