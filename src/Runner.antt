-- ===== src/Runner.antt =====
-- govc/govc_runner.go: one govc command, run inside the process.
pub mod FlagSet
pub mod Command
pub mod Capture
