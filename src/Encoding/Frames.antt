-- ===== src/Encoding/Frames.antt =====
-- Length-delimited pieces can be told apart again, and so can the digits of a digest.
use cmdtrail.Prelude.{
  ℕ, zero, suc, ◌*◌, append-nil, append_assoc, ◌/◌, ◌%◌, ◌≤◌, ◌<◌, ◌≡◌, refl, sym, ap, ◌∙◌, List,
  [], ◌∷◌, ◌++◌, arith, length, length-append, append-injective, len_u64, u64_max, All,
}
use cmdtrail.Text.{Bytes}
use cmdtrail.Encoding.{
  hex_digit, hex_lower, be_bytes, u64_be_bytes, append_length_delimited, append_all,
}

length-be_bytes : (k n : ℕ) → length (be_bytes k n) ≡ k
unfolding be_bytes
length-be_bytes zero n = refl
length-be_bytes (suc k) n =
    omega (arith, length-append (be_bytes k (n / 256)) (n % 256 ∷ []), length-be_bytes k (n / 256))

abbrev Fits : ℕ → ℕ → Type 0
Fits zero n = n ≡ 0
Fits (suc k) n = Fits k (n / 256)

be_bytes-injective : (k n m : ℕ) → Fits k n → Fits k m → be_bytes k n ≡ be_bytes k m → n ≡ m
unfolding be_bytes
be_bytes-injective zero n m fn fm h = omega arith
be_bytes-injective (suc k) n m fn fm h =
    let (high, low) =
      append-injective (be_bytes k (n / 256)) (be_bytes k (m / 256))
        (length-be_bytes k (n / 256) ∙ sym (length-be_bytes k (m / 256))) h in
    omega (arith, be_bytes-injective k (n / 256) (m / 256) fn fm high, last_eq low)
  where
    last_eq : {a b : ℕ} → ◌≡◌ {A = Bytes} (a ∷ []) (b ∷ []) → a ≡ b
    last_eq e = cc

pub u64_be_bytes-injective :
    (n m : ℕ) → n ≤ u64_max → m ≤ u64_max → u64_be_bytes n ≡ u64_be_bytes m → n ≡ m
unfolding u64_be_bytes
u64_be_bytes-injective n m hn hm h = be_bytes-injective 8 n m (omega arith) (omega arith) h

pub length-u64_be_bytes : (n : ℕ) → length (u64_be_bytes n) ≡ 8
unfolding u64_be_bytes
length-u64_be_bytes n = length-be_bytes 8 n

-- A piece short enough that its length is written exactly.
abbrev pub IsShort : Bytes → Type 0
IsShort piece = length piece ≤ u64_max

frame : Bytes → Bytes
frame piece = u64_be_bytes (len_u64 piece) ++ piece

abbrev frames : List Bytes → Bytes
frames [] = []
frames (piece ∷ pieces) = frame piece ++ frames pieces

append_all-frames :
    (target : Bytes) (pieces : List Bytes) → append_all target pieces ≡ target ++ frames pieces
unfolding append_all append_length_delimited frame
append_all-frames target [] = sym (append-nil target)
append_all-frames target (piece ∷ pieces) =
    append_all-frames (append_length_delimited target piece) pieces ∙ simp append_assoc

frame-injective :
    (p q : Bytes) {us vs : Bytes}
    → IsShort p
    → IsShort q
    → frame p ++ us ≡ frame q ++ vs
    → (p ≡ q) × (us ≡ vs)
unfolding frame
frame-injective p q hp hq h =
    let (sizes, rests) =
      append-injective (u64_be_bytes (len_u64 p)) (u64_be_bytes (len_u64 q))
        (length-u64_be_bytes (len_u64 p) ∙ sym (length-u64_be_bytes (len_u64 q)))
        (simp append_assoc at h) in
    append-injective p q
      (omega
        (arith, u64_be_bytes-injective (len_u64 p) (len_u64 q) (omega arith) (omega arith) sizes))
      rests

frame-ne-nil : (p us : Bytes) → frame p ++ us ≡ [] → ⊥
unfolding frame
frame-ne-nil p us h = omega (
  arith,
  ap length h,
  length-append (u64_be_bytes (len_u64 p) ++ p) us,
  length-append (u64_be_bytes (len_u64 p)) p,
  length-u64_be_bytes (len_u64 p),
)

frames-injective :
    (ps qs : List Bytes) → All IsShort ps → All IsShort qs → frames ps ≡ frames qs → ps ≡ qs
frames-injective [] [] hp hq h = refl
frames-injective [] (q ∷ qs) hp hq h = absurd (frame-ne-nil q (frames qs) (sym h))
frames-injective (p ∷ ps) [] hp hq h = absurd (frame-ne-nil p (frames ps) h)
frames-injective (p ∷ ps) (q ∷ qs) (sp, hp) (sq, hq) h =
    let (e, rest) = frame-injective p q sp sq h in cc (e, frames-injective ps qs hp hq rest)

-- Appended pieces are read back in one way only: equal bytes come from equal lists of pieces, for
-- pieces no longer than the largest u64.
pub append_all-injective :
    (ps qs : List Bytes)
    → All IsShort ps
    → All IsShort qs
    → append_all [] ps ≡ append_all [] qs
    → ps ≡ qs
append_all-injective ps qs hp hq h =
    frames-injective ps qs hp hq (sym (append_all-frames [] ps) ∙ (h ∙ append_all-frames [] qs))

abbrev pub IsByte : ℕ → Type 0
IsByte b = b < 256

hex_digit-injective : (a b : ℕ) → a < 16 → b < 16 → hex_digit a ≡ hex_digit b → a ≡ b
hex_digit-injective a b ha hb h = ground arith

first_two : {x y u v : ℕ} {l m : Bytes} → (x ∷ y ∷ l) ≡ (u ∷ v ∷ m) → (x ≡ u) × (y ≡ v) × (l ≡ m)
first_two e = (cc, cc, cc)

byte_eq : (a b : ℕ) → a / 16 ≡ b / 16 → a % 16 ≡ b % 16 → a ≡ b
byte_eq a b h l = omega arith

-- Two byte sequences with one hexadecimal text are the same.
pub hex_lower-injective :
    (cs bs : Bytes) → All IsByte cs → All IsByte bs → hex_lower cs ≡ hex_lower bs → cs ≡ bs
unfolding hex_lower
hex_lower-injective [] [] ha hb h = refl
hex_lower-injective [] (b ∷ bs) ha hb h = cc
hex_lower-injective (a ∷ cs) [] ha hb h = cc
hex_lower-injective (a ∷ cs) (b ∷ bs) (pa, ha) (pb, hb) h =
    let (high, low, rest) = first_two h in
    cc (
      byte_eq a b (hex_digit-injective (a / 16) (b / 16) (omega arith) (omega arith) high)
          (hex_digit-injective (a % 16) (b % 16) (omega arith) (omega arith) low),
      hex_lower-injective cs bs ha hb rest,
    )

pub length-hex_lower : (bs : Bytes) → length (hex_lower bs) ≡ 2 * length bs
unfolding hex_lower
length-hex_lower [] = refl
length-hex_lower (b ∷ bs) = omega (arith, length-hex_lower bs)
