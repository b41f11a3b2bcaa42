-- ===== src/Govc.antt =====
-- src/bosh-esxi-cpi/govc: the client that turns the actions' requests into govc commands.
pub mod Api
pub mod Commands
pub mod Answers
pub mod Lookups
pub mod Start
pub mod Client
pub mod Oracle
pub mod Host
pub mod Removal
pub mod Repeat
pub mod Scripts
pub mod Detaching
pub mod Order
pub mod Resources
pub mod Deletions
pub mod Sparing
pub mod Registering
