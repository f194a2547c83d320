-- ===== src/Examples.antt =====
-- Concrete worlds, runs on them, and the theorems at concrete inputs.
mod Ordered
mod Peer
mod Headers
mod Dials
mod Splices
mod Polls
mod Reports
mod Clients
mod Servers
mod Streams
mod Benches
mod Beside
mod Refused
mod Replies
mod Registries
mod Halves
mod Lines
mod Journeys
