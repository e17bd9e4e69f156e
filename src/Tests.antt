-- ===== src/Tests.antt =====
-- Concrete inputs for the theorems: that their hypotheses can hold.
pub mod Data
mod Security
mod Auth
mod Absences
mod Ingest
mod Streams
mod Users
mod Devices
mod Reports
mod Catalog
mod Screenshots
mod Staff
mod Reclassification
pub mod Rules
