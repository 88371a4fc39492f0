-- ===== src/Util/MiniYaml.antt =====
-- util/miniyaml.py: the reader and writer of the YAML subset.
pub mod Text
pub mod Values
pub mod Lines
pub mod Scalars
pub mod Parser
pub mod Dumper
pub mod Ends
pub mod RoundTrip
