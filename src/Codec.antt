-- ===== src/Codec.antt =====
-- The byte codecs that blockchaincoin/consensus.py builds on: big-endian words as `struct` packs
-- them, hexadecimal and UTF-8, the encoders of single fields, and the bounds-checked reader.
pub mod Words
pub mod Hex
pub mod Utf8
pub mod Encode
pub mod Reader
pub mod Reads
pub mod Fields
