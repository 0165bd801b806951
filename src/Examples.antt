-- ===== src/Examples.antt =====
-- Concrete data on which the theorems are applied, and the theorems there.
pub mod Data
mod Facts
mod Cycles
mod Readers
mod Ledgers
mod Failures
mod Listings
mod Probes
mod Rows
mod Settings
mod Measures
mod Turns
mod Tables
mod Threads
mod Requests
mod Runs
