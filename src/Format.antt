-- ===== src/Format.antt =====
-- What the source uses of Rust's formatting, parsing and string methods.
pub mod Decimal
pub mod Lines
pub mod Strings
unfoldable pub use Decimal.{
  decimal, is_digit, to_digit, push_digit, parse_digits, parse_radix, parse_unsigned,
}
pub use Decimal.{max_u8, max_u32, max_u64}
unfoldable pub use Lines.{lines, split_once, is_token_char, is_token}
unfoldable pub use Strings.{
  is_whitespace, trim_start, trim_end, trim, with_separator, join, strip_prefix, split_whitespace,
  is_absolute, parent,
}
pub use Strings.{FilePath}
