-- ===== src/Tools.antt =====
-- tools.py: the tools that a round may call. Its parts: the limit on a result's text, the line
-- window of a read, the edits of a file, and the registry.
pub mod Output
pub mod Window
pub mod Edits
pub mod Registry
pub mod Handlers
