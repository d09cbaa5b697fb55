-- ===== src/Tests.antt =====
-- Runs of the operations, and the theorems applied to concrete values.
mod CryptoRuns
mod CompressionRuns
mod ConnectionRuns
mod SchedulerRuns
mod NetworkRuns
mod MessageRuns
mod SocketRuns
mod Numbers
mod ManagerRuns
mod ProtocolRuns
mod DiagnosticsRuns
mod EncryptionRuns
mod PerformanceRuns
mod SecurityRuns
mod FileRuns
