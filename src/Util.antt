-- ===== src/Util.antt =====
-- util/: the reader and writer of the YAML subset.
pub mod MiniYaml
