-- ===== src/Tests.antt =====
-- The theorems applied at concrete inputs, and runs of the model.
mod Data
mod History
mod Rounds
mod Saving
mod Sessions
mod Tracking
mod Tooling
mod Hosting
mod Turning
mod Sandboxing
mod Configuring
