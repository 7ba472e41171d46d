-- ===== src/Python.antt =====
-- The parts of Python's standard library that the program builds on and that carry its behaviour.
pub mod Urls
pub mod Regex
