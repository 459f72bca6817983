-- ===== src/Marshal.antt =====
-- Canonical marshalling, src/tpm/marshal.rs. A `Reader` method takes `&mut self`: it returns its
-- result and the reader that it leaves, also where it fails. A `Writer` method returns the writer.
pub mod Bytes
pub mod Read
pub mod Write
pub mod RoundTrip
