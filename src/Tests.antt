-- ===== src/Tests.antt =====
-- The theorems at concrete inputs.
mod Data
mod LogRuns
mod Parts
mod Node
mod Election
mod Store
mod Rounds
mod Transport
mod Calls
mod Clients
