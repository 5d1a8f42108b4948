-- ===== src/Json.antt =====
-- A reader of JSON (RFC 8259, numbers without an exponent), against which the reports that
-- MemoryLatencyAnalyzer_linux/src writes are held: texts to tokens, tokens to values.
pub mod Tokens
pub mod Lexing
pub mod Words
pub mod Values
pub mod Emitting
pub mod Lines
pub mod Numbers
pub mod Members
