-- ===== src/Diff/Receipts.antt =====
-- A difference and the two receipts that it is of: exchanged, equal, or not verified.
use mathlib.Core.Path.{fun_ext}
use cmdtrail.Prelude.{
  ◌≡◌, refl, sym, true, false, ◌&&◌, Option, none, some, List, [], ◌∷◌, arith, filter_map,
  if◌then◌else◌, decided_of,
}
use cmdtrail.BTree.{get}
use cmdtrail.BTree.Keys.{key_union_comm}
use cmdtrail.Text.{Text}
use cmdtrail.Result.{ok, err}
use cmdtrail.Model.{
  EffectKey, key_ord, FileEffect, FileEffect-discrete, Receipt, DiffResult, CommandOutcome-discrete,
  Capabilities-discrete,
}
use cmdtrail.Integrity.{Hashing, verify_receipt}
use cmdtrail.Diff.{
  effects, added, removed, changed, diff_effects, diff_receipts, ensure_verified, not_verified,
}

module _ (h : Hashing) (version : Text) where
  added-swap : (k : EffectKey) (b a : Option FileEffect) → added k b a ≡ removed k a b
  unfolding added removed
  added-swap k none none = refl
  added-swap k none (some a) = refl
  added-swap k (some b) none = refl
  added-swap k (some b) (some a) = refl

  -- Exchanging the receipts exchanges the added and the removed effects.
  pub diff_effects-swap :
      (before after : Receipt)
      → ((diff_effects h version before after).added_effects
          ≡ (diff_effects h version after before).removed_effects)
        × ((diff_effects h version before after).removed_effects
            ≡ (diff_effects h version after before).added_effects)
  unfolding diff_effects
  diff_effects-swap before after =
      let b = effects before in
      let a = effects after in
      (
        rw (key_union_comm b a, fun_ext (λ k. added-swap k (get b k) (get a k))),
        rw (key_union_comm b a, fun_ext (λ k. sym (added-swap k (get a k) (get b k)))),
      )

  pub filter_map-none :
      {B : Type 0} (f : EffectKey → Option B) (ks : List EffectKey)
      → ((k : EffectKey) → f k ≡ none)
      → filter_map f ks ≡ []
  filter_map-none f [] none_for = refl
  filter_map-none f (k ∷ ks) none_for = ground (arith, none_for k, filter_map-none f ks none_for)

  unchanged_added : (k : EffectKey) (o : Option FileEffect) → added k o o ≡ none
  unfolding added
  unchanged_added k none = refl
  unchanged_added k (some e) = refl

  unchanged_removed : (k : EffectKey) (o : Option FileEffect) → removed k o o ≡ none
  unfolding removed
  unchanged_removed k none = refl
  unchanged_removed k (some e) = refl

  unchanged_changed : (k : EffectKey) (o : Option FileEffect) → changed k o o ≡ none
  unfolding changed
  unchanged_changed k none = refl
  unchanged_changed k (some e) = ground (arith, decided_of (FileEffect-discrete e e) refl)

  -- A verified receipt differs in nothing from itself.
  pub diff_receipts_self :
      (receipt : Receipt)
      → (verify_receipt h version receipt).integrity_valid ≡ true
      → (d : DiffResult) × (diff_receipts h version receipt receipt ≡ ok d)
        × (d.added_effects ≡ [])
        × (d.removed_effects ≡ [])
        × (d.changed_effects ≡ [])
        × (d.command_outcome_changed ≡ false)
        × (d.capability_declaration_changed ≡ false)
  unfolding diff_receipts ensure_verified diff_effects
  diff_receipts_self receipt valid = (
    diff_effects h version receipt receipt,
    ground arith,
    filter_map-none _ _ (λ k. unchanged_added k (get (effects receipt) k)),
    filter_map-none _ _ (λ k. unchanged_removed k (get (effects receipt) k)),
    filter_map-none _ _ (λ k. unchanged_changed k (get (effects receipt) k)),
    ground (
      arith,
      decided_of (CommandOutcome-discrete receipt.command.outcome receipt.command.outcome) refl,
    ),
    ground
        (arith, decided_of (Capabilities-discrete receipt.capabilities receipt.capabilities) refl),
  )

  -- A difference is given exactly when both receipts verify; otherwise the error is the integrity
  -- error.
  pub diff_receipts-verified :
      (before after : Receipt)
      → diff_receipts h version before after ≡ (
          if (verify_receipt h version before).integrity_valid
            && (verify_receipt h version after).integrity_valid
          then ok (diff_effects h version before after)
          else err not_verified)
  unfolding diff_receipts ensure_verified
  diff_receipts-verified before after = ground arith
