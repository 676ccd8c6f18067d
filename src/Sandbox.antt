-- ===== src/Sandbox.antt =====
-- sandbox.py. Its parts here: the paths of the tools, the references, the command line of the
-- container, the persistent shell, and the output of a command.
pub mod Paths
pub mod Capture
pub mod Refs
pub mod Argv
pub mod Shell
