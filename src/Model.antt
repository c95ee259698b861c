-- ===== src/Model.antt =====
-- model.rs: the receipt and its parts. A `u64` or `u32` is a natural number, a `String` its bytes,
-- an `i32` an integer; the order and the equality of a type are those that Rust derives.
mod Receipts
mod Effects
unfoldable pub use Effects.*
pub use Receipts.*
