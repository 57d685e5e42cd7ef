-- ===== src/Python.antt =====
-- The parts of Python 3.12's standard library that the modelled code calls, over code points and
-- bytes: `str` methods, `PurePosixPath` and the strict UTF-8 decoder.
pub mod Strings
pub mod PosixPath
pub mod Utf8
pub mod Lines
pub mod Search
