-- ===== src/Seri.antt =====
-- skynet/lualib-src/lua-seri.c: the serialiser of Lua values for messages between services.
pub mod Value
pub mod Blocks
pub mod Pack
pub mod Unpack
pub mod Numbers
pub mod Scalars
pub mod Sizes
pub mod RoundTrip
pub mod Message
mod Tests
