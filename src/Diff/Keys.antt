-- ===== src/Diff/Keys.antt =====
-- Which effects a comparison adds and removes depends only on the keys of what the events tell.
use mathlib.Core.List.{foldl}
use cmdtrail.Prelude.{
  ◌≡◌, refl, sym, ap, ◌∙◌, Option, none, some, List, [], ◌∷◌, map, filter_map, arith,
}
use cmdtrail.Ord.{Ord, list_ord, nat_ord}
use cmdtrail.BTree.{BTreeMap, get, insert, collect, keys, set_insert, set_contains}
use cmdtrail.BTree.Keys.{is_some, set_contains-keys}
use cmdtrail.Text.{Text}
use cmdtrail.Model.{
  EffectKey, key_ord, FileEffect, EventData, Event, Receipt, file_effect, command_requested,
  command_finished,
}
use cmdtrail.Integrity.{Hashing}
use cmdtrail.Diff.Receipts.{filter_map-none}
use cmdtrail.Diff.{key_of, keyed_effect, effects, added, removed, diff_effects}

module _ {K V : Type 0} ⦃o : Ord K⦄ where
  keys-insert : (k : K) (v : V) (m : BTreeMap K V) → keys (insert k v m) ≡ set_insert k (keys m)
  unfolding insert set_insert
  keys-insert k v [] = refl
  keys-insert k v ((i, w) ∷ m) = ground (arith, keys-insert k v m, o.eq_of_cmp k i)

  keys-collecting :
      (xs : List (K × V)) (m : BTreeMap K V)
      → keys (foldl (λ m e. insert e.0 e.1 m) m xs)
        ≡ foldl (λ s k. set_insert k s) (keys m) (map (λ e. e.0) xs)
  keys-collecting [] m = refl
  keys-collecting ((k, v) ∷ xs) m =
      keys-collecting xs (insert k v m)
      ∙ ap (λ s. foldl (λ s k. set_insert k s) s (map (λ e. e.0) xs)) (keys-insert k v m)

-- The key of an effect that an event tells of.
abbrev pub key_told : EventData → Option EffectKey
key_told (file_effect e) = some (key_of e)
key_told _ = none

keyed_effect-key :
    (events : List Event)
    → map (λ e. e.0) (filter_map (λ event. keyed_effect event.event) events)
      ≡ filter_map key_told (map (λ event. event.event) events)
unfolding keyed_effect
keyed_effect-key [] = refl
keyed_effect-key (event ∷ events) = by_data event.event (keyed_effect-key events)
  where
    by_data :
        (d : EventData)
        → map (λ e. e.0) (filter_map (λ event. keyed_effect event.event) events)
          ≡ filter_map key_told (map (λ event. event.event) events)
        → map
            (λ e. e.0)
            (elim (keyed_effect d) [
              | none ↦ filter_map (λ event. keyed_effect event.event) events
              | some y ↦ y ∷ filter_map (λ event. keyed_effect event.event) events
            ])
          ≡ elim (key_told d) [
            | none ↦ filter_map key_told (map (λ event. event.event) events)
            | some y ↦ y ∷ filter_map key_told (map (λ event. event.event) events)
          ]
    by_data (command_requested c) rest = rest
    by_data (command_finished c) rest = rest
    by_data (file_effect e) rest = ap (λ ks. key_of e ∷ ks) rest

-- The keys of the effects of a receipt are those that its events tell of.
keys-effects :
    (receipt : Receipt)
    → keys (effects receipt)
      ≡ foldl
          (λ s k. set_insert k s)
          []
          (filter_map key_told (map (λ event. event.event) receipt.events))
unfolding effects collect
keys-effects receipt =
    keys-collecting (filter_map (λ event. keyed_effect event.event) receipt.events) []
    ∙ ap (foldl (λ s k. set_insert k s) []) (keyed_effect-key receipt.events)

module _ (before after : Receipt)
    (alike : filter_map key_told (map (λ event. event.event) before.events)
      ≡ filter_map key_told (map (λ event. event.event) after.events)) where
  both_or_none :
      (k : EffectKey) → is_some (get (effects before) k) ≡ is_some (get (effects after) k)
  both_or_none k =
      sym (set_contains-keys k (effects before))
      ∙ ap (set_contains k) (
          keys-effects before
          ∙ ap (foldl (λ s k. set_insert k s) []) alike
          ∙ sym (keys-effects after))
      ∙ set_contains-keys k (effects after)

  nothing_added :
      (k : EffectKey) (b a : Option FileEffect) → is_some b ≡ is_some a → added k b a ≡ none
  unfolding added
  nothing_added k none none h = refl
  nothing_added k none (some a) h = cc
  nothing_added k (some b) none h = refl
  nothing_added k (some b) (some a) h = refl

  nothing_removed :
      (k : EffectKey) (b a : Option FileEffect) → is_some b ≡ is_some a → removed k b a ≡ none
  unfolding removed
  nothing_removed k none none h = refl
  nothing_removed k none (some a) h = refl
  nothing_removed k (some b) none h = cc
  nothing_removed k (some b) (some a) h = refl

  -- Receipts whose events tell of the same keys in the same order have no added and no removed effects.
  pub diff_effects_alike :
      (h : Hashing) (version : Text)
      → ((diff_effects h version before after).added_effects ≡ [])
        × ((diff_effects h version before after).removed_effects ≡ [])
  unfolding diff_effects
  diff_effects_alike h version = (
    filter_map-none h version _ _
        (λ k. nothing_added k (get (effects before) k) (get (effects after) k) (both_or_none k)),
    filter_map-none h version _ _
        (λ k. nothing_removed k (get (effects before) k) (get (effects after) k) (both_or_none k)),
  )
