-- ===== src/Http/Assembler/Requests.antt =====
-- A request on the wire and what `HttpAssembler::feed` (src/networking/http/HttpAssembler.cpp) makes
-- of it: from the first line to the message.
pub mod FirstLine
pub mod Fields
pub mod Headers
pub mod Ending
pub mod Delivery
pub mod Pipeline
