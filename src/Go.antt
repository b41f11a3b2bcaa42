-- ===== src/Go.antt =====
-- What the program's Go code is written with: errors, calls that return or panic, and the calls
-- that leave the process, each of them an event that the rest of the world answers.
pub mod World
pub mod Monad
pub mod Inversion
pub mod Avoids
