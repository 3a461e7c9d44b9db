-- ===== src/Examples.antt =====
-- Tests of the definitions and instances of the theorems at concrete inputs.
mod Texts
mod RouterRuns
mod BreakerRuns
mod PoolRuns
mod PassiveRuns
mod PickerRuns
mod ForwardRuns
mod RetryRuns
mod ReleaseRuns
mod GatewayRuns
mod CoordinatorRuns
mod ConfigRuns
mod DiscoveryRuns
mod AssemblyRuns
mod CheckerRuns
mod MetricsRuns
mod ObserverRuns
mod RequestRuns
