-- ===== src/Examples.antt =====
-- Tests of the definitions and the theorems at concrete inputs.
mod Proxy
mod Lines
mod Templates
mod Drift
mod Checks
mod Commands
mod Scans
mod Downloads
mod Signatures
