-- ===== src/Std.antt =====
-- What the program uses of the language's standard library: ASCII case, digits, UTF-8, `split`.
pub mod Ascii
pub mod Radix
pub mod Utf8
