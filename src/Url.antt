-- ===== src/Url.antt =====
-- stringutils.C: `doURLDecode` and `urlEncodeImpl` with the hexadecimal digits that they share (Defs),
-- decoding against a recursive description (Decode), and the encoder against one, with the round trip (Encode).
pub mod Hex
pub mod Defs
pub mod Decode
pub mod Encode
mod Tests
