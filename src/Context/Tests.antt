-- ===== src/Context/Tests.antt =====
-- Concrete collections and ports, and the theorems of the context feature at concrete inputs.
pub mod Memory
pub mod Script
mod Races
mod Messages
mod Sources
mod Texts
mod Examples
