-- ===== src/Http/Assembler.antt =====
-- src/networking/http/HttpAssembler.h and HttpAssembler.cpp: the request assembler.
pub mod State
pub mod Lines
pub mod HeaderLines
pub mod Content
pub mod Feed
pub mod Progress
pub mod Shrinking
pub mod Numbers
pub mod Scan
pub mod Outcome
pub mod Requests
pub mod Invariant
pub mod Pieces
