-- ===== src/Model/Effects.antt =====
-- model.rs: commands, file effects, events and what a comparison reports.
use cmdtrail.Prelude.{ℕ, ◌≡◌, Bool, Option, arith, ℕ_discrete}
use cmdtrail.Ord.{Ord, list_ord, nat_ord, pair_ord, ord_by}
use cmdtrail.Text.{Text}

-- `negsuc n` is -(n + 1).
pub data ℤ : Type 0 where
  pos : ℕ → ℤ
  negsuc : ℕ → ℤ

pub data CommandState : Type 0 where
  exited signaled timed_out interrupted spawn_failed observer_failed : CommandState

pub record CommandOutcome : Type 0 where
  pub state : CommandState
  pub exit_code : Option ℤ
  pub signal : Option ℤ
  pub success : Bool
  pub spawn_error_kind : Option Text

pub data EntryKind : Type 0 where
  file directory symlink other : EntryKind

pub data ContentHashState : Type 0 where
  hashed not_regular_file skipped_sensitive_path skipped_file_too_large : ContentHashState
  skipped_total_budget read_error changed_during_read : ContentHashState

pub record EntryState : Type 0 where
  pub kind : EntryKind
  pub size_bytes : Option Text
  pub modified_at_unix_ns : Option Text
  pub readonly : Bool
  pub unix_mode : Option ℕ
  pub content_sha256 : Option Text
  pub content_hash_state : ContentHashState
  pub symlink_target_sha256 : Option Text

pub data FileEffectKind : Type 0 where
  created modified deleted type_changed : FileEffectKind

pub record FileEffect : Type 0 where
  pub root_id : Text
  pub path_handle : Text
  pub display_path : Text
  pub effect : FileEffectKind
  pub before : Option EntryState
  pub after : Option EntryState

pub record CommandRequested : Type 0 where
  pub executable_sha256 : Text
  pub command_sha256 : Text

pub data EventData : Type 0 where
  command_requested : CommandRequested → EventData
  command_finished : CommandOutcome → EventData
  file_effect : FileEffect → EventData

pub record Event : Type 0 where
  pub sequence : ℕ
  pub observed_at_unix_ms : ℕ
  pub previous_event_sha256 : Option Text
  pub event : EventData
  pub event_sha256 : Text

pub record EffectKey : Type 0 where
  pub root_id : Text
  pub path_handle : Text
  pub display_path : Text
  pub effect : FileEffectKind

pub record ChangedEffect : Type 0 where
  pub key : EffectKey
  pub before : FileEffect
  pub after : FileEffect

unfoldable pub EntryKind-discrete : Discrete EntryKind
EntryKind-discrete = hlevel

unfoldable pub ContentHashState-discrete : Discrete ContentHashState
ContentHashState-discrete = hlevel

unfoldable pub EntryState-discrete : Discrete EntryState
EntryState-discrete = hlevel ℕ_discrete

unfoldable pub FileEffect-discrete : Discrete FileEffect
FileEffect-discrete = hlevel ℕ_discrete

unfoldable pub CommandOutcome-discrete : Discrete CommandOutcome
CommandOutcome-discrete = hlevel ℕ_discrete

-- The derived order of `FileEffectKind` is that of its variants.
abbrev pub effect_rank : FileEffectKind → ℕ
effect_rank created = 0
effect_rank modified = 1
effect_rank deleted = 2
effect_rank type_changed = 3

pub effect_rank-injective : (a b : FileEffectKind) → effect_rank a ≡ effect_rank b → a ≡ b
effect_rank-injective a b h = ground arith

-- The fields of a key, in the order in which the derived order compares them.
abbrev pub key_fields : EffectKey → Text × (Text × (Text × ℕ))
key_fields k = (k.root_id, (k.path_handle, (k.display_path, effect_rank k.effect)))

pub key_fields-injective : (a b : EffectKey) → key_fields a ≡ key_fields b → a ≡ b
key_fields-injective a b h = ground (arith, effect_rank-injective a.effect b.effect)

-- The derived order of `EffectKey`: field by field.
instance abbrev pub key_ord : Ord EffectKey
key_ord = ord_by pair_ord key_fields key_fields-injective
