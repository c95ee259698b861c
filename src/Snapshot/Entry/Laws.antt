-- ===== src/Snapshot/Entry/Laws.antt =====
-- When a digest is kept, what it is a digest of, and that the budget of hashed bytes holds.
use cmdtrail.Prelude.{
  ℕ, ◌+◌, ◌-◌, ◌≤◌, ◌<◌, ◌≡◌, ◌≢◌, refl, ap, ◌∙◌, Bool, true, false, Bool-cases, inl, inr, some,
  List, [], ◌∷◌, ◌++◌, arith, ltb, ◌==◌, if◌then◌else◌, length, length-append, take_all,
  saturating_add, len_u64, u64_max, append_assoc, append-nil,
}
use cmdtrail.Text.{Bytes, Text, is_empty}
use cmdtrail.FilePath.{FilePath}
use cmdtrail.Encoding.{hex_lower}
use cmdtrail.Result.{Result, ok, err}
use cmdtrail.Model.{hashed}
use cmdtrail.System.{Metadata, Filesystem, Chunk, bytes, broken}
use cmdtrail.Snapshot.Types.{SnapshotConfig}
use cmdtrail.Snapshot.Entry.{
  kind_of, finish_hash, hash_loop, hash_regular_file, hashed_content, content_hash, entry_state,
}

-- The content of a file whose reads all succeed and give something.
abbrev pub IsContent : List Chunk → Bytes → Type 0
IsContent [] content = content ≡ []
IsContent (bytes b ∷ chunks) content =
    (b ≢ []) × ((rest : Bytes) × IsContent chunks rest × (content ≡ b ++ rest))
IsContent (broken e ∷ chunks) content = ⊥

nonempty-is_empty : (b : Bytes) → b ≢ [] → is_empty b ≡ false
nonempty-is_empty [] h = absurd (h refl)
nonempty-is_empty (x ∷ b) h = refl

module _ (sha256 : Bytes → Bytes) (expected maximum : ℕ) (small : maximum < u64_max) where
  hash_loop-fits :
      (chunks : List Chunk) (rest seen : Bytes)
      → IsContent chunks rest
      → length seen + length rest ≤ maximum
      → hash_loop sha256 expected maximum chunks (maximum + 1 - length seen) (length seen) seen
        ≡ ok (finish_hash sha256 expected (length (seen ++ rest)) (seen ++ rest))
  unfolding hash_loop
  hash_loop-fits [] rest seen e fits = rw (e, append-nil seen) refl
  hash_loop-fits (broken x ∷ chunks) rest seen e fits = absurd e
  hash_loop-fits (bytes b ∷ chunks) content seen parts fits =
      let (some_b, split) = parts in
      let (rest, whole, e) = split in
      let sizes : length content ≡ length b + length rest = ap length e ∙ length-append b rest in
      let all_read = take_all (maximum + 1 - length seen) b (omega arith) in
      let grown : length (seen ++ b) ≡ length seen + length b = length-append seen b in
      let total : saturating_add (length seen) (len_u64 b) ≡ length (seen ++ b) = omega arith in
      let left : (maximum + 1 - length seen) - length b ≡ maximum + 1 - length (seen ++ b) =
        omega arith in
      let within : ltb maximum (length (seen ++ b)) ≡ false = ground arith in
      rw (all_read, nonempty-is_empty b some_b, total, within, left, e)
        (rw (← append_assoc seen b rest)
          (hash_loop-fits chunks rest (seen ++ b) whole (omega arith)))

module _ (sha256 : Bytes → Bytes) (fs : Filesystem) where
  finish_hash-eq :
      (expected n : ℕ) (content : Bytes)
      → finish_hash sha256 expected n content
        ≡ (if n == expected then hex_lower (sha256 content) else [], n)
  unfolding finish_hash
  finish_hash-eq expected n content = elim (Bool-cases (n == expected)) [
    | inl same ↦ rw same refl
    | inr other ↦ rw other refl
  ]

  -- A file whose reads give a content within the limit, of the length its metadata gave, is hashed
  -- to the digest of all that content; of another length, to the empty digest. The limit is less
  -- than the largest u64.
  pub hash_regular_file-digest :
      (path : FilePath) (expected maximum : ℕ) (chunks : List Chunk) (content : Bytes)
      → maximum < u64_max
      → fs.chunks path ≡ ok chunks
      → IsContent chunks content
      → length content ≤ maximum
      → hash_regular_file sha256 fs path expected maximum
        ≡ ok (if length content == expected then hex_lower (sha256 content) else [], length content)
  unfolding hash_regular_file finish_hash
  hash_regular_file-digest path expected maximum chunks content small opened whole fits =
      let start : saturating_add maximum 1 ≡ maximum + 1 - 0 = omega arith in
      let run =
        hash_loop-fits sha256 expected maximum small chunks content [] whole (omega arith) in
      rw (hash_regular_file, opened, start)
        (run ∙ ap ok (finish_hash-eq expected (length content) content))

  hashed_content-total :
      (result : Result Text (Text × ℕ)) (len total bound : ℕ)
      → total ≤ bound
      → saturating_add total len ≤ bound
      → (hashed_content result len total).2 ≤ bound
  unfolding hashed_content
  hashed_content-total (ok (digest, read)) len total bound here there = ground arith
  hashed_content-total (err e) len total bound here there = here

  -- The total of hashed bytes stays within the budget of a snapshot if it was within it before a
  -- path is captured, whatever the path holds.
  pub entry_state-budget :
      (path : FilePath) (m : Metadata) (sensitive : Bool) (config : SnapshotConfig) (total : ℕ)
      → total ≤ config.max_total_hash_bytes
      → (entry_state sha256 fs path m sensitive config total).1 ≤ config.max_total_hash_bytes
  unfolding entry_state content_hash
  entry_state-budget path m sensitive config total within = ground (
    arith,
    hashed_content-total (hash_regular_file sha256 fs path m.len config.max_file_hash_bytes) m.len
        total config.max_total_hash_bytes,
  )

  -- A digest is kept only of a path that is a regular file, not
  -- sensitive, within the limit on one file, and read to the length that its metadata gave.
  pub entry_state-digest :
      (path : FilePath) (m : Metadata) (sensitive : Bool) (config : SnapshotConfig) (total : ℕ)
      (digest : Text)
      → (entry_state sha256 fs path m sensitive config total).0.content_sha256 ≡ some digest
      → ((entry_state sha256 fs path m sensitive config total).0.content_hash_state ≡ hashed)
        × (m.is_file ≡ true)
        × (sensitive ≡ false)
        × (m.len ≤ config.max_file_hash_bytes)
        × (hash_regular_file sha256 fs path m.len config.max_file_hash_bytes ≡ ok (digest, m.len))
  unfolding entry_state content_hash hashed_content kind_of
  entry_state-digest path m sensitive config total digest kept = ground arith
