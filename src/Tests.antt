-- ===== src/Tests.antt =====
-- Runs over a toy provider, and the theorems at concrete inputs.
mod Toy
mod Crates
mod Sessions
mod Evercrypt
mod Started
mod Channels
mod Lifetimes
mod Parts
