-- ===== src/Git.antt =====
-- gitwork.py: the snapshots of the workspace. Its parts: the parsers of git's listings, the revert
-- of turns, and the statistics of what changed.
pub mod Changes
pub mod Conflict
pub mod Revert
pub mod Stats
