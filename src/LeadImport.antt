-- ===== src/LeadImport.antt =====
-- app/services/lead_import.py: the import of leads from a CSV file. Fields reads a row, Sheet reads the
-- file, Run stores the rows; the other children are proofs.
pub mod Fields
pub mod Sheet
pub mod Leads
pub mod Run
pub mod Lookup
pub mod Each
pub mod Counts
pub mod Kept
mod Tests
