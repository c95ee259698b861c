-- ===== src/Diff/Laws.antt =====
-- The three lists of a difference: what each key of the two receipts is reported as.
use cmdtrail.Prelude.{
  ◌≡◌, ◌≢◌, refl, sym, ap, ◌∙◌, ◌↔◌, Bool, true, false, ◌||◌, inl, inr, Option, none, some,
  Bool-cases, arith, map, filter_map, if◌then◌else◌, decided, decided_yes, decided_no, subst,
}
use cmdtrail.BTree.{BTreeMap, get, key_union, IsAscending}
use cmdtrail.BTree.Keys.{key_union-IsAscending, set_contains-key_union, is_some}
use cmdtrail.BTree.Keyed.{find_key, find_key-filter_map, filter_map-IsAscending}
use cmdtrail.Text.{Text}
use cmdtrail.Model.{
  EffectKey, key_ord, ChangedEffect, FileEffect, FileEffect-discrete, Receipt, DiffResult,
}
use cmdtrail.Integrity.{Hashing}
use cmdtrail.Diff.{effects, added, removed, changed, diff_effects}

-- A key that is in neither receipt is in none of the lists; so the loop over the keys of both
-- decides every key.
module _ {B : Type 0} (key_of : B → EffectKey)
    (f : EffectKey → Option FileEffect → Option FileEffect → Option B)
    (keyed : (k : EffectKey) (b a : Option FileEffect) (e : B) → f k b a ≡ some e → key_of e ≡ k)
    (absent : (k : EffectKey) → f k none none ≡ none) (b a : BTreeMap EffectKey FileEffect) where
  loop-at :
      (k : EffectKey)
      → find_key key_of k (filter_map (λ i. f i (get b i) (get a i)) (key_union b a))
        ≡ f k (get b k) (get a k)
  loop-at k =
      find_key-filter_map key_of (λ i. f i (get b i) (get a i)) (λ i e h. keyed i _ _ e h) k
        (key_union b a)
      ∙ rw (set_contains-key_union k b a) (by_presence (get b k) (get a k))
    where
      by_presence :
          (x y : Option FileEffect) → (if is_some x || is_some y then f k x y else none) ≡ f k x y
      by_presence none none = sym (absent k)
      by_presence none (some y) = refl
      by_presence (some x) y = refl

  loop-IsAscending :
      IsAscending (map key_of (filter_map (λ i. f i (get b i) (get a i)) (key_union b a)))
  loop-IsAscending =
      filter_map-IsAscending key_of (λ i. f i (get b i) (get a i)) (λ i e h. keyed i _ _ e h)
        (key_union b a) (key_union-IsAscending b a)

abbrev pub id_key : EffectKey → EffectKey
id_key k = k

abbrev pub changed_key : ChangedEffect → EffectKey
changed_key c = c.key

added-keyed :
    (k : EffectKey) (b a : Option FileEffect) (e : EffectKey) → added k b a ≡ some e → e ≡ k
unfolding added
added-keyed k none none e h = cc
added-keyed k none (some a) e h = ground arith
added-keyed k (some b) a e h = cc

removed-keyed :
    (k : EffectKey) (b a : Option FileEffect) (e : EffectKey) → removed k b a ≡ some e → e ≡ k
unfolding removed
removed-keyed k none a e h = cc
removed-keyed k (some b) none e h = ground arith
removed-keyed k (some b) (some a) e h = cc

changed-keyed :
    (k : EffectKey) (b a : Option FileEffect) (e : ChangedEffect)
    → changed k b a ≡ some e
    → e.key ≡ k
unfolding changed
changed-keyed k none a e h = cc
changed-keyed k (some b) none e h = cc
changed-keyed k (some b) (some a) e h = by_test (decided (FileEffect-discrete b a)) h
  where
    by_test :
        (same : Bool)
        → (if same then none else some (record { key = k; before = b; after = a })) ≡ some e
        → e.key ≡ k
    by_test true p = cc
    by_test false p = ap (λ (c : ChangedEffect). c.key) (some_eq p)
      where
        some_eq : {x y : ChangedEffect} → some x ≡ some y → y ≡ x
        some_eq q = cc

-- What the difference should say of a key, from the effect that each receipt retains for it.
pub record Reported (k : EffectKey) (b a : Option FileEffect) (d : DiffResult) : Type 0 where
  pub added_iff : (find_key id_key k d.added_effects ≡ some k) ↔ ((b ≡ none) × (a ≢ none))
  pub removed_iff : (find_key id_key k d.removed_effects ≡ some k) ↔ ((b ≢ none) × (a ≡ none))
  pub changed_iff :
      (c : ChangedEffect)
      → (find_key changed_key k d.changed_effects ≡ some c)
        ↔ ((c.key ≡ k) × (b ≡ some c.before) × (a ≡ some c.after) × (c.before ≢ c.after))

added_iff_lem :
    (k : EffectKey) (b a : Option FileEffect) → (added k b a ≡ some k) ↔ ((b ≡ none) × (a ≢ none))
unfolding added
added_iff_lem k none none = (λ h. cc, λ h. absurd (h.1 refl))
added_iff_lem k none (some a) = (λ h. (refl, λ e. cc), λ h. refl)
added_iff_lem k (some b) a = (λ h. cc, λ h. cc (h.0))

removed_iff_lem :
    (k : EffectKey) (b a : Option FileEffect) → (removed k b a ≡ some k) ↔ ((b ≢ none) × (a ≡ none))
unfolding removed
removed_iff_lem k none a = (λ h. cc, λ h. absurd (h.0 refl))
removed_iff_lem k (some b) none = (λ h. (λ e. cc, refl), λ h. refl)
removed_iff_lem k (some b) (some a) = (λ h. cc, λ h. cc (h.1))

changed_iff_lem :
    (k : EffectKey) (b a : Option FileEffect) (c : ChangedEffect)
    → (changed k b a ≡ some c)
      ↔ ((c.key ≡ k) × (b ≡ some c.before) × (a ≡ some c.after) × (c.before ≢ c.after))
unfolding changed
changed_iff_lem k none a c = (λ h. cc, λ h. cc (h.1))
changed_iff_lem k (some b) none c = (λ h. cc, λ h. cc (h.2))
changed_iff_lem k (some b) (some a) c =
    let same = FileEffect-discrete b a in
    elim (Bool-cases (decided same)) [
      | inl equal ↦
          rw equal
            (λ h. cc, λ h. absurd (h.3 (sym (opened h.1) ∙ (decided_yes same equal ∙ opened h.2))))
      | inr differ ↦ rw differ (
        λ h.
            subst
              (λ (d : ChangedEffect).
                (d.key ≡ k)
                × (some b ≡ some d.before)
                × (some a ≡ some d.after)
                × (d.before ≢ d.after))
              (opened h) (refl, refl, refl, decided_no same differ),
        λ h. ap some (rebuilt c (sym h.0) (opened h.1) (opened h.2)),
      )
    ]
  where
    opened : {A : Type 0} {x y : A} → some x ≡ some y → x ≡ y
    opened p = cc

    rebuilt :
        (d : ChangedEffect)
        → k ≡ d.key
        → b ≡ d.before
        → a ≡ d.after
        → record { key = k; before = b; after = a } ≡ d
    rebuilt d e f g = λ i. record { key = e i; before = f i; after = g i }

module _ (h : Hashing) (version : Text) where
  -- Every key is reported as the effects retained for it call for: added if only the later receipt
  -- has it, removed if only the earlier one has it, changed, with both effects, if both have it and
  -- the effects differ; and otherwise not at all.
  pub diff_effects-Reported :
      (before after : Receipt) (k : EffectKey)
      → Reported k
          (get (effects before) k)
          (get (effects after) k)
          (diff_effects h version before after)
  unfolding diff_effects
  diff_effects-Reported before after k =
      let b = effects before in
      let a = effects after in
      record {
        added_iff =
            rw (loop-at id_key added added-keyed (λ i. unfold added in refl) b a k)
              (added_iff_lem k (get b k) (get a k));
        removed_iff =
            rw (loop-at id_key removed removed-keyed (λ i. unfold removed in refl) b a k)
              (removed_iff_lem k (get b k) (get a k));
        changed_iff = λ c.
            rw (loop-at changed_key changed changed-keyed (λ i. unfold changed in refl) b a k)
              (changed_iff_lem k (get b k) (get a k) c);
      }
