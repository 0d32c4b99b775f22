-- ===== src/Tests.antt =====
-- The theorems of the properties at concrete inputs, and tests of the definitions (pkg/transfer).
mod Samples
mod Policies
mod Sessions
mod Streams
mod Deliveries
mod Legacies
mod Requests
mod Sendings
mod Arrivals
mod Managers
mod Signatures
mod Asks
mod Pickers
mod Apps
