-- ===== src/Tests.antt =====
-- Runs and inputs at which the theorems apply.
mod Sorting
mod Tables
mod Texts
mod Stores
mod Exchanges
mod Peers
mod Discoveries
mod Wallets
mod Ledgers
mod Services
mod Drives
mod Starts
