-- ===== src/Simulator.antt =====
-- src/apexpulse/producer/simulator.py: the match simulator.
pub mod State
pub mod Economy
pub mod Combat
pub mod Round
pub mod Match
pub mod Roster
pub mod Buying
pub mod Ready
pub mod Sane
pub mod Duels
pub mod Clocks
pub mod LiveRound
pub mod Completion
pub mod Matches
pub mod Report
mod Examples
pub mod Sample
