-- ===== src/Integrity/Binding.antt =====
-- What a digest binds: receipts or chains that agree on their digests agree on what was hashed, or
-- they exhibit two inputs on which the hash function collides. Nothing is assumed of the hash.
use mathlib.Core.Path.{ap₂}
use cmdtrail.Prelude.{
  ℕ, suc, ◌≡◌, ◌≢◌, refl, sym, ap, ◌∙◌, true, false, ◌⊎◌, inl, inr, Option, none, some, List, [],
  ◌∷◌, ◌++◌, arith, map, ℕ_discrete, Option-cases, append-nil, last?,
}
use cmdtrail.Text.{Text, Bytes, codes, contains_byte}
use cmdtrail.Text.Search.{eq_of_text_eq}
use cmdtrail.Encoding.{sha256_bytes}
use cmdtrail.Result.{Result, ok, err}
use cmdtrail.Error.{AppError}
use cmdtrail.Model.{Event, Receipt}
use cmdtrail.Integrity.{
  Hashing, hash_serializable, envelope, hash_event, verify_receipt, is_ok_and_eq, chain_valid,
  event_valid, option_eq, digest_of, cleared,
}
use cmdtrail.Integrity.Envelope.{envelope-injective}
use cmdtrail.Integrity.Chain.{link, link_start}

pub Bytes-discrete : Discrete Bytes
Bytes-discrete = hlevel ℕ_discrete

-- Two different inputs with one digest.
abbrev pub Collision : (Bytes → Bytes) → Type 0
Collision sha256 =
    (x : Bytes) × (y : Bytes) × (x ≢ y) × (sha256_bytes sha256 x ≡ sha256_bytes sha256 y)

module _ {T : Type 0} (sha256 : Bytes → Bytes) (jcs : T → Option Bytes) (domain : Text)
    (no_zero : contains_byte 0 domain ≡ false) where
  hashed :
      (a : T) {d : Text}
      → hash_serializable sha256 jcs domain a ≡ ok d
      → (x : Bytes) × (jcs a ≡ some x) × (sha256_bytes sha256 (envelope domain x) ≡ d)
  unfolding hash_serializable sha256_bytes
  hashed a {d} h = elim (Option-cases (jcs a)) [
    | inl failed ↦ ground arith
    | inr (x, encoded) ↦ (x, encoded, ground arith)
  ]

  -- One digest for two values: one encoding for both, or a collision.
  binds :
      (a b : T) {d : Text}
      → hash_serializable sha256 jcs domain a ≡ ok d
      → hash_serializable sha256 jcs domain b ≡ ok d
      → ((x : Bytes) × (jcs a ≡ some x) × (jcs b ≡ some x)) ⊎ Collision sha256
  binds a b {d} ha hb =
      let (x, ex, dx) = hashed a ha in
      let (y, ey, dy) = hashed b hb in
      elim (Bytes-discrete (envelope domain x) (envelope domain y)) [
        | yes same ↦
            let (_, e) = envelope-injective domain domain x y no_zero no_zero same in
            inl (x, ex, ey ∙ ap some (sym e))
        | no differ ↦ inr (envelope domain x, envelope domain y, differ, dx ∙ sym dy)
      ]

is_ok_and_eq-ok : (m : Result AppError Text) (t : Text) → is_ok_and_eq m t ≡ true → m ≡ ok t
is_ok_and_eq-ok (ok d) t h = ap ok (eq_of_text_eq d t h)
is_ok_and_eq-ok (err e) t h = cc

option_eq-eq : (a b : Option Text) → option_eq a b ≡ true → a ≡ b
option_eq-eq none none h = refl
option_eq-eq none (some b) h = cc
option_eq-eq (some a) none h = cc
option_eq-eq (some a) (some b) h = ap some (eq_of_text_eq a b h)

module _ (h : Hashing) (version : Text) where
  digest-verified :
      (r : Receipt)
      → (verify_receipt h version r).integrity_valid ≡ true
      → hash_serializable h.sha256 h.receipt_jcs (codes "receipt") (cleared r) ≡ ok r.receipt_sha256
  unfolding verify_receipt
  digest-verified r valid =
      is_ok_and_eq-ok (hash_serializable h.sha256 h.receipt_jcs (codes "receipt") (cleared r))
        r.receipt_sha256 (ground arith)

  -- Two receipts that verify and carry one digest have one canonical JSON, identifiers aside, or
  -- they exhibit a collision of the hash function.
  pub receipt_binding :
      (a b : Receipt)
      → (verify_receipt h version a).integrity_valid ≡ true
      → (verify_receipt h version b).integrity_valid ≡ true
      → a.receipt_sha256 ≡ b.receipt_sha256
      → ((x : Bytes) × (h.receipt_jcs (cleared a) ≡ some x) × (h.receipt_jcs (cleared b) ≡ some x))
        ⊎ Collision h.sha256
  receipt_binding a b va vb same =
      binds h.sha256 h.receipt_jcs (codes "receipt") (unfold contains_byte in refl) (cleared a)
        (cleared b) (digest-verified a va) (digest-verified b vb ∙ ap ok (sym same))

-- The events from the last to the first.
abbrev rev {ℓ} : {A : Type ℓ} → List A → List A → List A
rev [] acc = acc
rev (x ∷ xs) acc = rev xs (x ∷ acc)

rev-rev {ℓ} : {A : Type ℓ} (xs ys zs : List A) → rev (rev xs ys) zs ≡ rev ys (xs ++ zs)
rev-rev [] ys zs = refl
rev-rev (x ∷ xs) ys zs = rev-rev xs (x ∷ ys) zs

rev-injective {ℓ} : {A : Type ℓ} (xs ys : List A) → rev xs [] ≡ rev ys [] → xs ≡ ys
rev-injective xs ys e =
    sym (append-nil xs)
    ∙ (sym (rev-rev xs [] []) ∙ (ap (λ l. rev l []) e ∙ (rev-rev ys [] [] ∙ append-nil ys)))

map-rev {ℓ κ} :
    {A : Type ℓ} {B : Type κ} (f : A → B) (xs acc : List A)
    → map f (rev xs acc) ≡ rev (map f xs) (map f acc)
map-rev f [] acc = refl
map-rev f (x ∷ xs) acc = map-rev f xs (x ∷ acc)

abbrev newest : List Event → Option Text
newest [] = none
newest (e ∷ es) = some e.event_sha256

module _ (h : Hashing) where
  -- What is hashed of an event: its canonical JSON with an empty digest.
  abbrev pub material : Event → Option Bytes
  material e = h.event_jcs (record e { event_sha256 = [] })

  abbrev Linked : List Event → Type 0
  Linked [] = Unit
  Linked (e ∷ older) =
      (hash_event h e ≡ ok e.event_sha256) × (e.previous_event_sha256 ≡ newest older) × Linked older

  rev-Linked :
      (es acc : List Event) (previous : Option Text) (index : ℕ)
      → chain_valid h previous index es ≡ true
      → previous ≡ newest acc
      → Linked acc
      → Linked (rev es acc) × (newest (rev es acc) ≡ link previous es)
  unfolding chain_valid event_valid
  rev-Linked [] acc previous index valid e linked = (linked, sym e)
  rev-Linked (f ∷ es) acc previous index valid e linked =
      rev-Linked es (f ∷ acc) (some f.event_sha256) (suc index) (ground arith) refl (
        is_ok_and_eq-ok (hash_event h f) f.event_sha256 (ground arith),
        option_eq-eq f.previous_event_sha256 previous (ground arith) ∙ e,
        linked,
      )

  module _
      (binds_link : (a b : Event) (x : Bytes)
        → material a ≡ some x
        → material b ≡ some x
        → a.previous_event_sha256 ≡ b.previous_event_sha256) where
    Linked-binds :
        (es fs : List Event)
        → Linked es
        → Linked fs
        → newest es ≡ newest fs
        → (map material es ≡ map material fs) ⊎ Collision h.sha256
    unfolding hash_event
    Linked-binds [] [] le lf same = inl refl
    Linked-binds [] (f ∷ fs) le lf same = cc
    Linked-binds (e ∷ es) [] le lf same = cc
    Linked-binds (e ∷ es) (f ∷ fs) (he, pe, le) (hf, pf, lf) same =
        let digests : e.event_sha256 ≡ f.event_sha256 = cc (same) in
        elim (binds h.sha256 h.event_jcs (codes "event") (unfold contains_byte in refl)
          (record e { event_sha256 = [] }) (record f { event_sha256 = [] }) he
          (hf ∙ ap ok (sym digests))) [
            | inr collision ↦ inr collision
            | inl (x, xe, xf) ↦
                elim (Linked-binds es fs le lf (sym pe ∙ (binds_link e f x xe xf ∙ pf))) [
                  | inr collision ↦ inr collision
                  | inl rest ↦ inl (ap₂ (λ m ms. m ∷ ms) (xe ∙ sym xf) rest)
                ]
          ]

    -- Two valid chains that end in one digest are chains over the same canonical JSON, event by
    -- event, or they exhibit a collision of the hash function. The canonical JSON of an event must
    -- determine the link to the event before.
    pub chain_binding :
        (es fs : List Event)
        → chain_valid h none 0 es ≡ true
        → chain_valid h none 0 fs ≡ true
        → digest_of (last? es) ≡ digest_of (last? fs)
        → (map material es ≡ map material fs) ⊎ Collision h.sha256
    chain_binding es fs ve vf same =
        let (le, ne) = rev-Linked es [] none 0 ve refl tt in
        let (lf, nf) = rev-Linked fs [] none 0 vf refl tt in
        elim (Linked-binds (rev es []) (rev fs []) le lf
          (ne ∙ (link_start es ∙ (same ∙ (sym (link_start fs) ∙ sym nf))))) [
            | inr collision ↦ inr collision
            | inl e ↦ inl (
                rev-injective (map material es) (map material fs)
                  (sym (map-rev material es []) ∙ (e ∙ map-rev material fs [])))
          ]
