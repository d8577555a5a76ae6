-- ===== src/Tests.antt =====
-- Concrete inputs: the program's environment as concrete functions, each theorem at an input that
-- meets its hypotheses, and runs of the operations.
mod Database
mod CostCaps
mod Alerting
mod DeviceCommands
mod Buffer
mod Rollout
mod Deployments
mod Ingestion
mod Access
mod Procedures
