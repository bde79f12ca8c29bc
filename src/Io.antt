-- ===== src/Io.antt =====
-- include/lucanthrope/IO and lib/IO.
pub mod IndexIoBase
pub mod IndexInput
pub mod Encode
pub mod IndexOutput
pub mod RoundTrip
pub mod Items
pub mod Decoder
