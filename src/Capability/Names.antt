-- ===== src/Capability/Names.antt =====
-- The schema document lists the values that occur in receipts.
use cmdtrail.Prelude.{◌≡◌, refl, ap, sym, subst, ◌↔◌, Bool, List, [], ◌∷◌, map}
use mathlib.Core.List.{Memᴰ}
use mathlib.Core.List.Memᴰ.{head, tail}
use cmdtrail.Text.{Text, codes}
use cmdtrail.Model.{
  CommandState, exited, signaled, timed_out, interrupted, spawn_failed, observer_failed,
  FileEffectKind, created, modified, deleted, type_changed, CoverageLevel, full, partial,
  unavailable, unknown,
}
use cmdtrail.Record.Events.{effect_name}
use cmdtrail.Capability.Schema.{schema_document}

-- The names in JSON: `rename_all = "snake_case"`.
abbrev pub state_name : CommandState → Text
state_name exited = codes "exited"
state_name signaled = codes "signaled"
state_name timed_out = codes "timed_out"
state_name interrupted = codes "interrupted"
state_name spawn_failed = codes "spawn_failed"
state_name observer_failed = codes "observer_failed"

abbrev pub coverage_name : CoverageLevel → Text
coverage_name full = codes "full"
coverage_name partial = codes "partial"
coverage_name unavailable = codes "unavailable"
coverage_name unknown = codes "unknown"

-- The list has the names of all values, and nothing else.
abbrev pub IsNamesOf : {A : Type 0} → (A → Text) → List Text → Type 0
IsNamesOf {A} name_of names = (name : Text) → Memᴰ name names ↔ ((a : A) × (name_of a ≡ name))

mem_map : {A : Type 0} (f : A → Text) (a : A) (l : List A) → Memᴰ a l → Memᴰ (f a) (map f l)
mem_map f a [] m = elim m [ ]
mem_map f a (x ∷ l) (head e) = head (ap f e)
mem_map f a (x ∷ l) (tail m) = tail (mem_map f a l m)

from_map :
    {A : Type 0} (f : A → Text) (name : Text) (l : List A)
    → Memᴰ name (map f l)
    → (a : A) × (f a ≡ name)
from_map f name [] m = elim m [ ]
from_map f name (x ∷ l) (head e) = (x, sym e)
from_map f name (x ∷ l) (tail m) = from_map f name l m

-- A list that every value is in.
IsNamesOf-all :
    {A : Type 0} (name_of : A → Text) (all : List A)
    → ((a : A) → Memᴰ a all)
    → IsNamesOf name_of (map name_of all)
IsNamesOf-all name_of all every name = (
  from_map name_of name all,
  λ named.
      subst (λ t. Memᴰ t (map name_of all)) named.1 (mem_map name_of named.0 all (every named.0)),
)

all_states :
    (s : CommandState)
    → Memᴰ s (exited ∷ signaled ∷ timed_out ∷ interrupted ∷ spawn_failed ∷ observer_failed ∷ [])
all_states exited = head refl
all_states signaled = tail (head refl)
all_states timed_out = tail (tail (head refl))
all_states interrupted = tail (tail (tail (head refl)))
all_states spawn_failed = tail (tail (tail (tail (head refl))))
all_states observer_failed = tail (tail (tail (tail (tail (head refl)))))

all_effects : (e : FileEffectKind) → Memᴰ e (created ∷ modified ∷ deleted ∷ type_changed ∷ [])
all_effects created = head refl
all_effects modified = tail (head refl)
all_effects deleted = tail (tail (head refl))
all_effects type_changed = tail (tail (tail (head refl)))

all_levels : (l : CoverageLevel) → Memᴰ l (full ∷ partial ∷ unavailable ∷ unknown ∷ [])
all_levels full = head refl
all_levels partial = tail (head refl)
all_levels unavailable = tail (tail (head refl))
all_levels unknown = tail (tail (tail (head refl)))

-- The command states, the file effects and the coverage levels of the schema document, brief or not,
-- are the names of all values of those types and no others.
pub schema_document-IsNamesOf :
    (version : Text) (brief : Bool)
    → let document = schema_document version brief in
      IsNamesOf state_name document.command_states
      × IsNamesOf effect_name document.file_effects
      × IsNamesOf coverage_name document.coverage_levels
unfolding schema_document
schema_document-IsNamesOf version brief = (
  IsNamesOf-all state_name _ all_states,
  IsNamesOf-all effect_name _ all_effects,
  IsNamesOf-all coverage_name _ all_levels,
)
