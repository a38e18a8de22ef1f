-- ===== src/Tests.antt =====
-- Runs of the model on concrete inputs, and the theorems at concrete inputs.
mod World
mod Runs
mod Storage
mod Texts
mod Requests
mod Callbacks
mod Parts
mod Exchange
mod Waiting
mod Stores
mod Starting
mod Answers
mod Serving
mod Logging
mod Service
mod Ending
