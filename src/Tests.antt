-- ===== src/Tests.antt =====
-- Runs of the program on small inputs, and the theorems at them.
mod Toy
mod Scenario
mod Pairing
mod Storage
mod Gates
mod Sending
mod Access
mod Web
mod Blobs
mod Gateway
mod Streams
