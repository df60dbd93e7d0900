-- ===== src/Tests.antt =====
-- Runs of the definitions on concrete inputs, and the theorems applied to such inputs.
pub mod Toy
mod Keys
mod Streams
mod Sessions
mod Links
mod Commands
mod Lifetimes
mod Facade
mod Tunnels
mod Endings
mod Greetings
mod Tables
