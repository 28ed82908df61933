-- ===== src/Tests.antt =====
-- Runs of the model at concrete inputs: tests of the definitions, and the theorems applied.
mod Wire
mod Payloads
mod Session
mod Link
mod Barista
mod Services
mod Setup
mod Entities
