-- ===== src/Codec.antt =====
-- The codecs of src/codec/.
pub mod Bitpack
pub mod Dict
