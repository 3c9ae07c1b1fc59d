-- ===== src/Tests.antt =====
-- Runs of the model on concrete inputs, among them those of tests/networking.
mod Pipelining
mod Assembling
mod Serving
mod Text
mod References
mod Wiring
mod Threads
mod Pieces
mod Starting
mod Arriving
