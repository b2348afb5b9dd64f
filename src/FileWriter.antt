-- ===== src/FileWriter.antt =====
-- The Go package filewriter.
pub mod Names
pub mod Paths
pub mod Writer
pub mod Default
pub mod Keeps
pub mod Grows
pub mod Closed
pub mod Appends
mod Tests
