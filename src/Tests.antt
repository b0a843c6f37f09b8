-- ===== src/Tests.antt =====
-- Runs of the model at concrete inputs.
pub mod Collections
pub mod Floats
pub mod Talk
pub mod Words
pub mod Systems
pub mod Answers
pub mod Calls
pub mod Heaps
pub mod Images
pub mod Machines
pub mod Errors
pub mod Natives
