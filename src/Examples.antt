-- ===== src/Examples.antt =====
-- Concrete runs: an instance of the Noise interface, and the theorems at concrete inputs.
mod Toy
mod Wire
mod Transport
mod Ik
mod Handshake
mod Process
mod Settings
mod Meeting
mod Measures
mod Start
mod Ready
mod Duplex
mod Disk
mod Relays
mod Connections
