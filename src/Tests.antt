-- ===== src/Tests.antt =====
-- Runs of the models at concrete inputs, and the theorems applied there.
mod Data
mod Registry
mod Routing
mod Xds
mod Reconciliation
mod Config
mod Streams
mod Requests
mod Api
mod Watcher
mod Lifecycle
mod Delivery
mod Mesh
mod Contents
