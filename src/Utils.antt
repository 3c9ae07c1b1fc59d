-- ===== src/Utils.antt =====
-- src/networking/Utils.h: the text helpers of `Utils`, and `std::from_chars` into an `int`, on
-- which `parseHexadecimal` and `HttpAssembler::parseNumber` rest.
pub mod Chars
pub mod Token
pub mod Config
pub mod Console
pub mod Files
