-- ===== src/Http/Assembler/Pieces.antt =====
-- `HttpAssembler::feed` (src/networking/http/HttpAssembler.cpp) on a stream that arrives in pieces.
pub mod Reads
pub mod Synced
pub mod View
pub mod Rounds
pub mod Runs
pub mod Answers
pub mod Feeding
pub mod Streams
pub mod Waiting
