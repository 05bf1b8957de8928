-- ===== src/Tests.antt =====
-- Runs of the definitions at concrete inputs, and each theorem at an input that meets its
-- hypotheses.
mod Samples
mod Perms
mod Club
mod Node
mod Steps
mod Fees
mod Voice
mod Proto
mod Bindings
mod Snapshots
mod Renewed
mod Links
