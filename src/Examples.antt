-- ===== src/Examples.antt =====
-- The theorems at concrete inputs, and runs of the models.
mod Bench
mod Core
mod Trading
mod Messages
mod Account
mod Operator
mod Callers
mod Settings
mod Forecast
mod Upkeep
