-- ===== src/Encoding.antt =====
-- Byte encodings: the lower-case hexadecimal digests of integrity.rs and the length-delimited
-- pieces of redact.rs, from which command and path fingerprints are made. SHA-256 itself is a
-- parameter.
pub mod Frames
use cmdtrail.Prelude.{
  ℕ, zero, suc, ◌+◌, ◌-◌, ◌/◌, ◌%◌, List, [], ◌∷◌, ◌++◌, ltb, if◌then◌else◌, len_u64,
}
use cmdtrail.Text.{Bytes, Text}

abbrev pub hex_digit : ℕ → ℕ
hex_digit d = if ltb d 10 then b'0' + d else b'a' + (d - 10)

-- `hex_lower`: two digits for each byte, the high one first.
unfoldable pub hex_lower : Bytes → Text
hex_lower [] = []
hex_lower (byte ∷ bytes) = hex_digit (byte / 16) ∷ hex_digit (byte % 16) ∷ hex_lower bytes

-- `sha256_bytes`, over the hash function of the `sha2` crate.
unfoldable pub sha256_bytes : (Bytes → Bytes) → Bytes → Text
unfolding hex_lower
sha256_bytes sha256 bytes = hex_lower (sha256 bytes)

be_bytes : ℕ → ℕ → Bytes
be_bytes zero n = []
be_bytes (suc k) n = be_bytes k (n / 256) ++ (n % 256 ∷ [])

-- `n.to_be_bytes()` of a `u64`.
unfoldable pub u64_be_bytes : ℕ → Bytes
unfolding be_bytes
u64_be_bytes n = be_bytes 8 n

unfoldable pub append_length_delimited : Bytes → Bytes → Bytes
append_length_delimited target bytes = target ++ u64_be_bytes (len_u64 bytes) ++ bytes

-- `for piece in pieces { append_length_delimited(&mut target, piece) }`
unfoldable pub append_all : Bytes → List Bytes → Bytes
append_all target [] = target
append_all target (piece ∷ pieces) = append_all (append_length_delimited target piece) pieces
