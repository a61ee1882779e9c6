-- ===== src/Tests.antt =====
-- Runs at concrete inputs, and instances of the theorems.
mod Codec
mod World
mod Anchor
mod Inputs
mod Cache
mod Handle
mod Server
mod Timings
mod Scripts
