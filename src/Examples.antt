-- ===== src/Examples.antt =====
-- The theorems at work on concrete inputs, one file for each group of components.
mod Layers
mod Policies
mod Verdicts
mod Quotas
mod Signals
mod Panels
mod Refreshes
mod Fetches
mod Requests
