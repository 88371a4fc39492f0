-- ===== src/Util/MiniYaml/RoundTrip.antt =====
-- util/miniyaml.py: which of the texts that the writer writes the parser reads back.
pub mod Texts
pub mod Writable
pub mod Scalars
pub mod Outline
pub mod Entries
pub mod Cleaning
pub mod Breaks
pub mod Dumping
pub mod Assigning
pub mod Parsing
pub mod Whole
pub mod Steps
pub mod Items
pub mod Limits
pub mod Dropped
mod Examples
