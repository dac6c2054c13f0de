-- ===== src/Transfer.antt =====
-- The transfer services: text conversion, part files, the queue.
pub mod Lines
pub mod Utf8
pub mod Stream
pub mod Mode
pub mod Partial
pub mod Upload
pub mod Download
mod Tests
