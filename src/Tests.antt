-- ===== src/Tests.antt =====
-- Runs of the definitions on concrete inputs, and the theorems at inputs that meet their hypotheses.
pub mod Data
mod Text
mod Games
mod Broadcasts
mod Peers
mod Settings
pub mod Connections
mod Running
mod Sorts
mod Screens
mod Views
mod Probes
mod Programs
mod Races
mod Networks
mod Logs
