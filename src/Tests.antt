-- ===== src/Tests.antt =====
-- Runs of the models on concrete inputs, and each theorem at an input that meets its hypotheses.
mod TreeRuns
mod ConnectionRuns
mod DaemonRuns
mod ConfRuns
mod ChildRuns
mod FileRuns
mod StorageRuns
mod InitRuns
mod ClientRuns
