-- ===== src/Tests.antt =====
-- Runs of the model on concrete inputs, and each property at an input of its own.
pub mod Fixtures
pub mod RegistryRuns
pub mod NameRuns
pub mod ProxyRuns
pub mod LogRuns
pub mod ApiRuns
pub mod DnsRuns
pub mod PageRuns
pub mod HostRuns
pub mod ToyCrypto
pub mod CaRuns
pub mod CmdRuns
