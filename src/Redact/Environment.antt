-- ===== src/Redact/Environment.antt =====
-- `from_environment_names`: which values are loaded, and when loading fails.
use cmdtrail.Prelude.{
  ◌≡◌, ◌∙◌, ap, false, inl, inr, Option, List, [], ◌∷◌, ◌++◌, append_assoc, append-nil, arith,
  All-append, filter_map, length, Option-cases,
}
use cmdtrail.Ord.{list_ord, nat_ord}
use cmdtrail.BTree.{IsAscending, set_contains}
use cmdtrail.Sort.{sort, dedup, dedup-sort-IsAscending, set_contains-dedup-sort, All-dedup-sort}
use cmdtrail.Result.{ok, >>=-eq-ok}
use cmdtrail.Text.{Text, is_empty}
use cmdtrail.Redact.{Redactor, collect_values, from_environment_names}
use cmdtrail.Redact.Values.{AllNonempty}

module _ (var : Text → Option Text) where
  collect_values-ok :
      (names acc : List Text) {values : List Text}
      → AllNonempty acc
      → collect_values var names acc ≡ ok values
      → (values ≡ acc ++ filter_map var names)
        × AllNonempty values
        × (length (filter_map var names) ≡ length names)
        × AllNonempty names
  unfolding collect_values
  collect_values-ok [] acc some_text h = ground (arith, append-nil acc)
  collect_values-ok (name ∷ names) acc {values} some_text h = elim (Option-cases (var name)) [
    | inl unset ↦ ground arith
    | inr (value, set) ↦ ground (
      arith,
      collect_values-ok names (acc ++ (value ∷ [])) {values = values},
      All-append (λ v. is_empty v ≡ false) acc (value ∷ []) some_text,
      append_assoc acc (value ∷ []) (filter_map var names),
    )
  ]

  -- When loading succeeds, every name is nonempty and set to a nonempty value, and the redactor
  -- holds exactly the values of the names, in strictly ascending order.
  pub from_environment_names-ok :
      (names : List Text) {r : Redactor}
      → from_environment_names var names ≡ ok r
      → AllNonempty names
        × (length (filter_map var names) ≡ length names)
        × AllNonempty r.custom_values
        × IsAscending r.custom_values
        × ((w : Text) → set_contains w r.custom_values ≡ set_contains w (filter_map var names))
  unfolding from_environment_names
  from_environment_names-ok names {r} h =
      let (values, collected, made) = >>=-eq-ok (collect_values var names []) _ h in
      let (same, nonempty, set, named) =
        collect_values-ok names [] {values = values} tt collected in
      let e : dedup (sort values) ≡ r.custom_values = cc (made) in
      (
        named,
        set,
        rw (← e) (All-dedup-sort (λ v. is_empty v ≡ false) values nonempty),
        rw (← e) (dedup-sort-IsAscending values),
        λ w. rw (← e) (set_contains-dedup-sort w values ∙ ap (set_contains w) same),
      )
