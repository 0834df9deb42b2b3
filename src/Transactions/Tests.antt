-- ===== src/Transactions/Tests.antt =====
-- Runs of the trades' model on concrete data, and instances of its theorems.
mod Codec
mod Cases
mod Instances
mod Presets
mod Listing
