-- ===== src/Ktast.antt =====
-- The Kotlin scanner behind the Android detectors (checkers/ktast_client.py).
pub mod Blank
pub mod Literals
pub mod Source
pub mod Braces
pub mod Facts
pub mod Annotations
pub mod Extract
