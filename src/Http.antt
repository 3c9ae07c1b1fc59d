-- ===== src/Http.antt =====
-- src/networking/http: messages and the stream assembler.
pub mod Types
pub mod Message
pub mod Assembler
