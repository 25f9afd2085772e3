-- ===== src/Tests.antt =====
-- Runs on concrete inputs: the auctions that the tests share, and the tests and instances of each part.
pub mod Data
mod Auctions
mod Flights
mod Pledges
mod Schedules
mod Matches
pub mod Logs
mod Clocks
mod Retries
mod Ladders
pub mod Commits
mod Engines
