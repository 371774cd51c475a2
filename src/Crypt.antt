-- ===== src/Crypt.antt =====
-- skynet/lualib-src/lua-crypt.c: key exchange, text encodings and the string hash.
pub mod Dh
pub mod Hex
pub mod Base64
pub mod Mix
mod Tests
