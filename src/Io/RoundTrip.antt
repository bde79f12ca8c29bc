-- ===== src/Io/RoundTrip.antt =====
-- What is written by IndexOutput is read back by IndexInput.
pub mod Fixed
pub mod Varint
pub mod Strings
