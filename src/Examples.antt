-- ===== src/Examples.antt =====
-- Runs of the modelled code at concrete inputs.
mod Chain
mod Text
mod Node
mod Rows
mod Reconciling
mod Deciding
mod Writing
mod Attempts
mod Contest
mod Service
mod Working
mod Reaching
