-- ===== src/Tests.antt =====
-- Runs of the modelled code on concrete inputs, and the theorems applied to them.
mod Toy
mod LogRuns
mod SqliteRuns
mod CachedRuns
mod CodecRuns
mod LatchRuns
mod CompactRuns
mod ConsolidateRuns
mod TriggerRuns
mod RouteRuns
mod FileRuns
