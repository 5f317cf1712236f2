-- ===== src/Examples.antt =====
-- The theorems at concrete inputs, and tests of the definitions.
mod Data
mod Records
mod Findings
mod Addressing
mod Permitting
mod Reducing
mod Marking
mod Storing
mod Viewing
mod Operating
mod Disposing
mod Validating
