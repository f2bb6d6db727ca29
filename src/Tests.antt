-- ===== src/Tests.antt =====
-- The theorems at concrete inputs, with a database in memory and four transactions.
mod Instances
mod StoreRuns
mod MempoolRuns
mod BlockRuns
mod IndexRuns
mod Peers
mod NodeRuns
mod ElectrumRuns
mod ReachableRuns
mod JournalRuns
mod QueryRuns
mod TurnRuns
