-- ===== src/Examples.antt =====
-- Runs of the code on concrete inputs.
mod Helpers
mod Values
mod Builders
mod Text
mod Compare
mod Debug
mod Both
mod Runs
