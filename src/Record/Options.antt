-- ===== src/Record/Options.antt =====
-- Which options `validate_options` accepts.
use cmdtrail.Prelude.{
  ℕ, ◌≤◌, ◌<◌, ◌≡◌, ◌≢◌, refl, ◌↔◌, false, Option, none, some, List, [], ◌∷◌, arith,
}
use cmdtrail.Text.{Bytes}
use cmdtrail.Result.{ok}
use cmdtrail.Record.{RecordOptions, is_no_command, is_bad_timeout, validate_options}

abbrev pub IsTimeout : Option ℕ → Type 0
IsTimeout none = Unit
IsTimeout (some ms) = (0 < ms) × (ms ≤ 86400000)

-- The limits that the documentation states.
pub record IsAllowed (o : RecordOptions) : Type 0 where
  pub has_command : o.command ≢ []
  pub some_entries : 0 < o.max_entries
  pub few_entries : o.max_entries ≤ 1000000
  pub some_events : 2 ≤ o.max_events
  pub few_events : o.max_events ≤ 1000000
  pub file_limit : o.max_file_hash_bytes ≤ 1073741824
  pub total_limit : o.max_total_hash_bytes ≤ 17179869184
  pub timeout : IsTimeout o.timeout_ms

no_command_iff : (c : List Bytes) → (is_no_command c ≡ false) ↔ (c ≢ [])
no_command_iff [] = (λ h. cc, λ h. absurd (h refl))
no_command_iff (c ∷ cs) = (λ h e. cc, λ h. refl)

bad_delay_iff : (t : Option ℕ) → (is_bad_timeout t ≡ false) ↔ IsTimeout t
bad_delay_iff none = (λ h. tt, λ h. refl)
bad_delay_iff (some ms) = (λ h. ground arith, λ h. ground arith)

-- The options are accepted exactly when they are within all the limits.
pub validate_options-IsAllowed : (o : RecordOptions) → (validate_options o ≡ ok tt) ↔ IsAllowed o
unfolding validate_options
validate_options-IsAllowed o = (
  λ h. record {
    has_command = (no_command_iff o.command).0 (ground arith);
    some_entries = ground arith;
    few_entries = ground arith;
    some_events = ground arith;
    few_events = ground arith;
    file_limit = ground arith;
    total_limit = ground arith;
    timeout = (bad_delay_iff o.timeout_ms).0 (ground arith);
  },
  λ a.
      let c = (no_command_iff o.command).1 a.has_command in
      let t = (bad_delay_iff o.timeout_ms).1 a.timeout in
      ground (
        arith, c, t, a.some_entries, a.few_entries, a.some_events, a.few_events, a.file_limit,
        a.total_limit,
      ),
)
