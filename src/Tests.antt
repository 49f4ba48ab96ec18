-- ===== src/Tests.antt =====
-- The model run on inputs of the repository's tests, and the witnesses of the theorems.
mod Samples
mod DsnTests
mod FingerprintTests
mod ImportTests
mod ProxySamples
mod ProxyTests
mod LifecycleTests
mod HostTests
mod SessionTests
mod TlsTests
mod ExchangeTests
