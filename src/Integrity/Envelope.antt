-- ===== src/Integrity/Envelope.antt =====
-- The envelope that `hash_serializable` puts around a value keeps domains and values apart.
use cmdtrail.Prelude.{
  ℕ, ◌≡◌, refl, sym, ◌∙◌, false, [], ◌∷◌, ◌++◌, arith, append-injective, len_u64,
}
use cmdtrail.Text.{Text, Bytes, codes, contains_byte}
use cmdtrail.Encoding.{u64_be_bytes}
use cmdtrail.Encoding.Frames.{length-u64_be_bytes}
use cmdtrail.Integrity.{envelope}

-- A text up to its first zero byte is read in one way.
zero_terminated :
    (a b us vs : Bytes)
    → contains_byte 0 a ≡ false
    → contains_byte 0 b ≡ false
    → a ++ (0 ∷ us) ≡ b ++ (0 ∷ vs)
    → (a ≡ b) × (us ≡ vs)
unfolding contains_byte
zero_terminated [] [] us vs ha hb h = (refl, cc)
zero_terminated [] (y ∷ b) us vs ha hb h = ground arith
zero_terminated (x ∷ a) [] us vs ha hb h = ground arith
zero_terminated (x ∷ a) (y ∷ b) us vs ha hb h = ground (arith, zero_terminated a b us vs, rest_eq h)
  where
    rest_eq : (x ∷ (a ++ (0 ∷ us))) ≡ (y ∷ (b ++ (0 ∷ vs))) → (a ++ (0 ∷ us)) ≡ (b ++ (0 ∷ vs))
    rest_eq e = cc

-- Equal hash inputs have the same domain and the same encoded value: no value of one domain is
-- hashed like a value of another. The domains hold no zero byte.
pub envelope-injective :
    (d e : Text) (x y : Bytes)
    → contains_byte 0 d ≡ false
    → contains_byte 0 e ≡ false
    → envelope d x ≡ envelope e y
    → (d ≡ e) × (x ≡ y)
unfolding envelope
envelope-injective d e x y hd he h =
    let (_, behind) =
      append-injective (codes "cmdtrail.integrity.v1") (codes "cmdtrail.integrity.v1") refl h in
    let (same_domain, sized) = zero_terminated d e _ _ hd he (tail_eq behind) in
    let (_, same_value) =
      append-injective (u64_be_bytes (len_u64 x)) (u64_be_bytes (len_u64 y))
        (length-u64_be_bytes (len_u64 x) ∙ sym (length-u64_be_bytes (len_u64 y))) sized in
    (same_domain, same_value)
  where
    tail_eq : {a b : ℕ} {us vs : Bytes} → (a ∷ us) ≡ (b ∷ vs) → us ≡ vs
    tail_eq e = cc
