-- ===== src/Tests.antt =====
-- The theorems at concrete inputs, and runs of the client against small worlds.
mod World
mod Removal
mod Start
mod Answers
mod Url
mod Capture
mod Api
mod Create
mod Doubles
mod Actions
mod Values
mod Settings
mod Shared
mod Program
mod Resources
mod Registry
mod Lifecycle
