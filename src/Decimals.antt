-- ===== src/Decimals.antt =====
-- Python's `decimal.Decimal` as the program uses it: a signed coefficient and a scale, so that the
-- value is num / 10 ^ scale. Sums, differences and products are exact, with the scale that the
-- decimal module gives them; quantize rounds half to even unless the call says otherwise; a
-- quotient is rounded to the 28 digits of the default context. Amounts stay far below 28 digits,
-- so the context rounds no sum or product.
mod Defs
pub mod Order
pub mod Products
pub mod Rounding
mod Tests
unfoldable pub use Defs.*
