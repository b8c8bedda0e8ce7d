-- ===== src/Examples.antt =====
-- Runs at concrete inputs, and the theorems at inputs that meet their hypotheses.
mod Samples
mod Registry
mod Merged
mod Discovery
mod Domain
mod ClashApi
mod Config
mod Core
mod Mocks
mod Ipc
mod Loader
mod Netwatch
mod Payloads
mod PrimitiveHost
mod Process
mod Proxy
mod Runtime
mod Slots
mod Storage
