-- ===== src/Host.antt =====
-- host.py. Its parts here: the loop that evicts sessions and ends the host, the loading of a
-- session, and what a session takes of the configuration.
pub mod Reaper
pub mod Parts
pub mod Loading
