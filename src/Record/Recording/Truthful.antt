-- ===== src/Record/Recording/Truthful.antt =====
-- What the file effects of a sealed receipt mean: each is a difference between the two snapshots, and
-- where none was dropped, each difference is told.
use cmdtrail.Prelude.{
  ℕ, ◌≤◌, ◌-◌, ◌≡◌, ◌≢◌, refl, sym, ap, ◌∙◌, subst, false, Option, none, some, inl, inr, List, [],
  ◌∷◌, map, take, take_all, arith, OneOf, OneOf-map, map-OneOf, take-OneOf,
}
use cmdtrail.Ord.{list_ord, nat_ord}
use cmdtrail.BTree.{get}
use cmdtrail.Text.{Text, unwrap_or}
use cmdtrail.Result.{ok}
use cmdtrail.Model.{Receipt, FileEffect, file_effect, SnapshotStats, default_stats, ReceiptSummary}
use cmdtrail.Snapshot.Types.{PreparedRoot, Snapshot}
use cmdtrail.Snapshot.Capture.Growth.{is_cut, marks_cut}
use cmdtrail.Snapshot.Compare.{compare, root_records}
use cmdtrail.Snapshot.Compare.Laws.{state_at}
use cmdtrail.Snapshot.Compare.Reported.{IsTrue, Tells, compare-IsTrue, compare-Tells}
use cmdtrail.Record.{RecordOptions, validate_options}
use cmdtrail.Record.Options.{validate_options-IsAllowed}
use cmdtrail.Record.Events.{file_slots, retained_effect_count, dropped_file_effects}
use cmdtrail.Record.Events.Contents.{said}
use cmdtrail.Record.Draft.{Prepared, Observed, any_truncated, draft_receipt, receipt_summary}
use cmdtrail.Record.Recording.{Machine, seal}
use cmdtrail.Record.Recording.Sound.{IsSound, seal-IsSound}

-- Nothing is dropped only where all effects fit.
none_dropped :
    (max_events : ℕ) (effects : List FileEffect)
    → max_events ≤ 1000000
    → dropped_file_effects max_events effects ≡ 0
    → take (file_slots max_events) effects ≡ effects
unfolding dropped_file_effects retained_effect_count file_slots
none_dropped max_events effects limit h = take_all (max_events - 2) effects (omega arith)

uncut :
    (root : PreparedRoot) (roots : List PreparedRoot) (before after : Snapshot)
    → OneOf root roots
    → any_truncated (root_records roots before after) ≡ false
    → (is_cut before.stats root.root_id ≡ false) × (is_cut after.stats root.root_id ≡ false)
unfolding root_records
uncut root [] before after one h = absurd one
uncut root (first ∷ roots) before after (inr later) h =
    uncut root roots before after later (ground arith)
uncut root (first ∷ roots) before after (inl same) h = rw same (
  by_stats (get before.stats first.root_id) (ground arith),
  by_stats (get after.stats first.root_id) (ground arith),
)
  where
    by_stats :
        (s : Option SnapshotStats)
        → (unwrap_or s default_stats).truncated ≡ false
        → marks_cut s ≡ false
    by_stats none e = refl
    by_stats (some t) e = e

-- An effect of a path handle that is so, among the events of a receipt.
pub record IsTold (seen : Observed) (receipt : Receipt) (key : Text) : Type 0 where
  pub effect : FileEffect
  pub one : OneOf (seen.finished_at, file_effect effect) (map said receipt.events)
  pub about : effect.path_handle ≡ key
  pub so : IsTrue seen.before seen.after effect

module _ {D : Type 0} (machine : Machine D) (o : RecordOptions) (p : Prepared) (seen : Observed)
    {receipt : Receipt} where
  -- Every file effect that a sealed receipt tells of has the states of its path in the two snapshots,
  -- and is of the kind that they call for: created where there was no entry, deleted where there is
  -- none, of another type or modified where the two differ. The options are within their limits.
  pub seal-IsTrue :
      (e : FileEffect) (at : ℕ)
      → validate_options o ≡ ok tt
      → seal machine o p seen ≡ ok receipt
      → OneOf (at, file_effect e) (map said receipt.events)
      → IsTrue seen.before seen.after e
  seal-IsTrue e at valid sealed one =
      let sound = seal-IsSound machine o p seen valid sealed in
      elim (subst (OneOf (at, file_effect e)) sound.told one) [
        | inl h ↦ absurd (cc (h))
        | inr (inl h) ↦ absurd (cc (h))
        | inr (inr m) ↦
            let (x, taken, same) =
              map-OneOf (λ effect. (seen.finished_at, file_effect effect)) (at, file_effect e)
                (take (file_slots o.max_events) (compare seen.before seen.after)) m in
            let is : e ≡ x = cc (same) in
            rw is (
              compare-IsTrue seen.before seen.after x
                (take-OneOf (file_slots o.max_events) x (compare seen.before seen.after) taken))
      ]

  -- The summary is that of the draft.
  pub same_summary :
      (sound : IsSound machine o p seen receipt)
      → receipt.summary
        ≡ receipt_summary seen.run.0 o.max_events
            (compare seen.before seen.after)
            (root_records p.roots seen.before seen.after)
  unfolding draft_receipt
  same_summary sound = ap (λ (r : Receipt). r.summary) sound.drafted

  -- What `compare` tells, the events tell, where none was dropped.
  pub told_by_events :
      {key : Text}
      → validate_options o ≡ ok tt
      → seal machine o p seen ≡ ok receipt
      → receipt.summary.dropped_file_effects ≡ 0
      → (tells : Tells seen.before seen.after key (compare seen.before seen.after))
      → (told : IsTold seen receipt key) × (told.effect ≡ tells.effect)
  unfolding receipt_summary
  told_by_events valid sealed kept tells =
      let sound = seal-IsSound machine o p seen valid sealed in
      let limit = ((validate_options-IsAllowed o).0 valid).few_events in
      let all =
        none_dropped o.max_events (compare seen.before seen.after) limit
          (sym (ap (λ (s : ReceiptSummary). s.dropped_file_effects) (same_summary sound)) ∙ kept) in
      (
        record {
          effect = tells.effect;
          one = subst (OneOf (seen.finished_at, file_effect tells.effect)) (sym sound.told) (
              inr (
                inr (
                  OneOf-map (λ effect. (seen.finished_at, file_effect effect)) tells.effect
                    (take (file_slots o.max_events) (compare seen.before seen.after))
                    (subst (OneOf tells.effect) (sym all) tells.one))));
          about = tells.about;
          so = tells.so;
        },
        refl,
      )

  -- A path whose states in the two snapshots differ is told of, unless effects were dropped.
  pub seal_tells :
      (key : Text)
      → validate_options o ≡ ok tt
      → seal machine o p seen ≡ ok receipt
      → receipt.summary.dropped_file_effects ≡ 0
      → state_at seen.before key ≢ state_at seen.after key
      → IsTold seen receipt key
  seal_tells key valid sealed kept differ =
      (told_by_events valid sealed kept (compare-Tells seen.before seen.after key differ)).0

  -- A summary without the mark of a cut is of snapshots without one.
  pub seal_uncut :
      (root : PreparedRoot)
      → validate_options o ≡ ok tt
      → seal machine o p seen ≡ ok receipt
      → receipt.summary.snapshot_truncated ≡ false
      → OneOf root p.roots
      → (is_cut seen.before.stats root.root_id ≡ false)
        × (is_cut seen.after.stats root.root_id ≡ false)
  unfolding receipt_summary
  seal_uncut root valid sealed whole one =
      let sound = seal-IsSound machine o p seen valid sealed in
      uncut root p.roots seen.before seen.after one
        (sym (ap (λ (s : ReceiptSummary). s.snapshot_truncated) (same_summary sound)) ∙ whole)
