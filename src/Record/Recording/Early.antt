-- ===== src/Record/Recording/Early.antt =====
-- The errors before a command runs, and of sealing, are not of the class for a receipt that could
-- not be stored after it.
use cmdtrail.Prelude.{
  ℕ, ◌≡◌, refl, subst, Bool, true, false, Option, none, some, List, [], ◌∷◌, if◌then◌else◌,
}
use cmdtrail.Text.{Text, Bytes, codes, text_eq}
use cmdtrail.FilePath.{FilePath}
use cmdtrail.Result
use cmdtrail.Result.{Result, ok, err, ok_or, or_error, reject_if}
use cmdtrail.Action.{Action, after}
use cmdtrail.Error.{AppError, ExitClass, post_execution_receipt_class}
use cmdtrail.Model.{Event, FileEffect, EventData, file_effect}
use cmdtrail.System.{Metadata, Filesystem}
use cmdtrail.Disk.{Disk}
use cmdtrail.Integrity.{Hashing, append_event, hash_serializable, hash_event, finalize_receipt}
use cmdtrail.ReceiptFile.{check_target, preflight_new_receipt, preflight_failed}
use cmdtrail.Snapshot.Roots.{resolve, resolve_all, check_against, check_pairs, prepare_roots}
use cmdtrail.Redact.{Redactor}
use cmdtrail.Record.{RecordOptions, validate_options}
use cmdtrail.Record.Events.{append_effects, record_events}
use cmdtrail.Record.Draft.{Prepared, Observed}
use cmdtrail.Record.Recording.{
  Machine, prepare, redaction_error, resolve_working_directory, seal, events_of,
}

abbrev pub is_late : ExitClass → Bool
is_late post_execution_receipt_class = true
is_late _ = false

-- A success, or an error of another class.
unfoldable pub IsEarly : {A : Type 0} → Result AppError A → Type 0
IsEarly (ok a) = Unit
IsEarly (err e) = is_late e.class ≡ false

module _ {A B : Type 0} where
  IsEarly-bind :
      (first : Result AppError A) (rest : A → Result AppError B)
      → IsEarly first
      → ((a : A) → IsEarly (rest a))
      → IsEarly (Result.◌>>=◌ first rest)
  unfolding IsEarly
  IsEarly-bind (ok a) rest here there = there a
  IsEarly-bind (err e) rest here there = here

  IsEarly-then :
      (first : Result AppError A) (rest : Result AppError B)
      → IsEarly first
      → IsEarly rest
      → IsEarly (Result.◌>>◌ first rest)
  unfolding IsEarly
  IsEarly-then (ok a) rest here there = there
  IsEarly-then (err e) rest here there = here

  IsEarly-after :
      {C : Type 0} (first : C × Result AppError A) (rest : A → Action C B)
      → IsEarly first.1
      → ((a : A) (t : C) → IsEarly (rest a t).1)
      → IsEarly (after first rest).1
  unfolding IsEarly
  IsEarly-after (t, ok a) rest here there = there a t
  IsEarly-after (t, err e) rest here there = here

IsEarly-reject : (test : Bool) (e : AppError) → is_late e.class ≡ false → IsEarly (reject_if test e)
unfolding IsEarly
IsEarly-reject true e h = h
IsEarly-reject false e h = tt

module _ {A : Type 0} where
  IsEarly-or :
      (answer : Result Text A) (e : AppError)
      → is_late e.class ≡ false
      → IsEarly (or_error answer e)
  unfolding IsEarly
  IsEarly-or (ok a) e h = tt
  IsEarly-or (err kind) e h = h

  IsEarly-ok_or : (o : Option A) (e : AppError) → is_late e.class ≡ false → IsEarly (ok_or o e)
  unfolding IsEarly
  IsEarly-ok_or none e h = h
  IsEarly-ok_or (some a) e h = tt

  IsEarly-ok : (a : A) → IsEarly (ok a)
  unfolding IsEarly
  IsEarly-ok a = tt

  IsEarly-redaction : (answer : Result Text A) → IsEarly (redaction_error answer)
  unfolding IsEarly
  IsEarly-redaction (ok a) = tt
  IsEarly-redaction (err message) = refl

-- An error that is early is of another class.
pub is_late-early :
    {A : Type 0} (result : Result AppError A) {e : AppError}
    → IsEarly result
    → result ≡ err e
    → is_late e.class ≡ false
unfolding IsEarly
is_late-early (ok a) early h = cc
is_late-early (err e') {e} early h =
    let same : e' ≡ e = cc (h) in subst (λ (x : AppError). is_late x.class ≡ false) same early

ruleset early = (
  IsEarly-bind, IsEarly-then, IsEarly-after, IsEarly-reject, IsEarly-or, IsEarly-ok_or, IsEarly-ok,
  IsEarly-redaction, refl,
)

validate_options-IsEarly : (o : RecordOptions) → IsEarly (validate_options o)
unfolding validate_options
validate_options-IsEarly o = search early depth 8

check_target-IsEarly : (answer : Result Text Metadata) → IsEarly (check_target answer)
unfolding check_target IsEarly
check_target-IsEarly (ok m) = refl
check_target-IsEarly (err kind) = by_test (text_eq kind (codes "NotFound"))
  where
    by_test : (test : Bool) → IsEarly (if test then ok tt else err preflight_failed)
    by_test true = tt
    by_test false = refl

preflight_new_receipt-IsEarly :
    {D : Type 0} (disk : Disk D) (path : FilePath) (s : D)
    → IsEarly (preflight_new_receipt disk path s).1
unfolding preflight_new_receipt
preflight_new_receipt-IsEarly disk path s = search (early, check_target-IsEarly)

check_against-IsEarly :
    (first : FilePath) (rest : List FilePath) → IsEarly (check_against first rest)
unfolding check_against
check_against-IsEarly first [] = search early
check_against-IsEarly first (second ∷ rest) = search (early, check_against-IsEarly first rest)

check_pairs-IsEarly : (paths : List FilePath) → IsEarly (check_pairs paths)
unfolding check_pairs
check_pairs-IsEarly [] = search early
check_pairs-IsEarly (first ∷ rest) =
    search (early, check_against-IsEarly first rest, check_pairs-IsEarly rest)

module _ (sha256 : Bytes → Bytes) (fs : Filesystem) (r : Redactor) where
  resolve_all-IsEarly : (paths : List FilePath) → IsEarly (resolve_all sha256 fs r paths)
  unfolding resolve_all resolve
  resolve_all-IsEarly [] = search early
  resolve_all-IsEarly (path ∷ paths) = search (early, resolve_all-IsEarly paths)

  prepare_roots-IsEarly :
      (directory : FilePath) (roots : List FilePath)
      → IsEarly (prepare_roots sha256 fs r directory roots)
  unfolding prepare_roots
  prepare_roots-IsEarly directory roots = search (early, resolve_all-IsEarly, check_pairs-IsEarly)

module _ (h : Hashing) where
  append_event-IsEarly :
      (events : List Event) (at : ℕ) (data_of : EventData)
      → IsEarly (append_event h events at data_of)
  unfolding append_event hash_event hash_serializable
  append_event-IsEarly events at data_of = search early

  append_effects-IsEarly :
      (events : List Event) (at : ℕ) (effects : List FileEffect)
      → IsEarly (append_effects h events at effects)
  unfolding append_effects
  append_effects-IsEarly events at [] = search early
  append_effects-IsEarly events at (effect ∷ effects) =
      IsEarly-bind (append_event h events at (file_effect effect)) _
        (append_event-IsEarly events at _) (λ more. append_effects-IsEarly more at effects)

module _ {D : Type 0} (machine : Machine D) (o : RecordOptions) where
  resolve_working_directory-IsEarly : (s : D) → IsEarly (resolve_working_directory machine o s)
  unfolding resolve_working_directory
  resolve_working_directory-IsEarly s = search early

  pub prepare-IsEarly : (s : D) → IsEarly (prepare machine o s).1
  unfolding prepare
  prepare-IsEarly s =
      search
        (
          early, validate_options-IsEarly, preflight_new_receipt-IsEarly,
          resolve_working_directory-IsEarly, prepare_roots-IsEarly,
        )
        depth 10

  pub seal-IsEarly : (p : Prepared) (seen : Observed) → IsEarly (seal machine o p seen)
  unfolding seal events_of record_events finalize_receipt hash_serializable
  seal-IsEarly p seen = search (early, append_event-IsEarly, append_effects-IsEarly)
