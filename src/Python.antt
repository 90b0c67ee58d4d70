-- ===== src/Python.antt =====
-- What the program uses of Python's integers and texts.
pub mod Int
pub mod Decimal
pub mod Text
pub mod Utf8
pub mod Slices
pub mod Sets
