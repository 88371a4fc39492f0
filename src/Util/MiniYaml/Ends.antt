-- ===== src/Util/MiniYaml/Ends.antt =====
-- util/miniyaml.py: the fuel of the model is enough, for scalars and for blocks.
pub mod Scalars
pub mod Blocks
