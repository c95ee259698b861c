-- ===== src/Snapshot/Capture/Handles.antt =====
-- Path handles name a root and a path below it.
use cmdtrail.Prelude.{ℕ, ◌≡◌, sym, ◌⊎◌, inl, inr, Bool, false, Bool-cases, Option, List, [], ◌∷◌}
use cmdtrail.Text.{Text, Bytes}
use cmdtrail.FilePath.{FilePath}
use cmdtrail.Encoding.{append_all}
use cmdtrail.Encoding.Frames.{IsShort, append_all-injective}
use cmdtrail.Integrity.Binding.{Bytes-discrete, Collision}
use cmdtrail.System.{Filesystem}
use cmdtrail.Redact.{Redactor}
use cmdtrail.Snapshot.Types.{SnapshotConfig, PreparedRoot}
use cmdtrail.Snapshot.Capture.{handle_of, capture_internal}
use cmdtrail.Snapshot.Capture.Growth.{has_entry}
use cmdtrail.Snapshot.Capture.Walked.{IsWalked, capture_internal-IsWalked}

-- Two paths with one handle are one relative path below roots with one identifier, or they exhibit a
-- collision of the hash function. The identifiers and paths are no longer than the largest u64.
pub handle_binding :
    (sha256 : Bytes → Bytes) (id id' : Text) (relative relative' : FilePath)
    → IsShort id × IsShort relative
    → IsShort id' × IsShort relative'
    → handle_of sha256 id relative ≡ handle_of sha256 id' relative'
    → ((id ≡ id') × (relative ≡ relative')) ⊎ Collision sha256
unfolding handle_of
handle_binding sha256 id id' relative relative' (short, brief) (short', brief') same =
    let x = append_all [] (id ∷ relative ∷ []) in
    let y = append_all [] (id' ∷ relative' ∷ []) in
    elim (Bytes-discrete x y) [
      | yes e ↦
          let pieces =
            append_all-injective (id ∷ relative ∷ []) (id' ∷ relative' ∷ []) (short, (brief, tt))
              (short', (brief', tt)) e in
          inl (cc (pieces), cc (pieces))
      | no differ ↦ inr (x, y, differ, cc (same))
    ]

-- The walks of a file system find no path that is `relative` below a root of the identifier `id`; they
-- find no path, and the roots have no identifier, longer than the largest u64.
pub record IsUnfound (sha256 : Bytes → Bytes) (fs : Filesystem) (roots : List PreparedRoot)
    (id : Text) (relative : FilePath) : Type 0 where
  pub short :
      (k : Text) (w : IsWalked sha256 fs roots k) → IsShort w.root.root_id × IsShort w.relative
  pub unfound :
      (k : Text) (w : IsWalked sha256 fs roots k) → w.root.root_id ≡ id → w.relative ≡ relative → ⊥

module _ (sha256 : Bytes → Bytes) (fs : Filesystem) (config : SnapshotConfig) (r : Redactor)
    (interrupted : Option (ℕ → Bool)) where
  -- A path that no walk finds has no entry, but for a collision.
  pub unfound_no_entry :
      (roots : List PreparedRoot) (id : Text) (relative : FilePath)
      → IsShort id × IsShort relative
      → IsUnfound sha256 fs roots id relative
      → (has_entry
            (capture_internal sha256 fs config r interrupted roots).entries
            (handle_of sha256 id relative)
          ≡ false)
        ⊎ Collision sha256
  unfound_no_entry roots id relative brief none_found =
      elim (Bool-cases (
        has_entry (capture_internal sha256 fs config r interrupted roots).entries
          (handle_of sha256 id relative))) [
            | inr gone ↦ inl gone
            | inl here ↦
                let key = handle_of sha256 id relative in
                let w = capture_internal-IsWalked sha256 fs config r interrupted roots key here in
                elim (handle_binding sha256 w.root.root_id id w.relative relative
                  (none_found.short key w) brief (sym w.named)) [
                    | inl same ↦ absurd (none_found.unfound key w same.0 same.1)
                    | inr collision ↦ inr collision
                  ]
          ]
