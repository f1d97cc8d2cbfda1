-- ===== src/Tests.antt =====
-- The theorems at concrete inputs, and runs of the models.
pub mod Arguments
pub mod Words
pub mod Assignment
pub mod Commands
pub mod Continuations
pub mod Conditional
pub mod Expand
pub mod Flavors
pub mod Hash
pub mod Integers
pub mod Logic
pub mod Merge
pub mod Mword
pub mod Numbered
pub mod Pattern
pub mod Shuffle
pub mod Strcache
pub mod Variables
