-- ===== src/Tests.antt =====
-- Runs of the model at concrete inputs, and the theorems applied to them.
mod WireTests
mod RegistryTests
mod ClusterTests
mod ProxyTests
mod SessionTests
mod StatusTests
mod StatusLoopTests
mod ServerTests
mod SpliceTests
mod SystemTests
mod AdoptionTests
mod DiscoveryTests
mod ConfigTests
