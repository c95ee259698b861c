-- ===== src/Disk/Samples.antt =====
-- A disk on which everything succeeds that can: a map from paths to files, and the current directory.
use cmdtrail.Prelude.{
  ℕ, ◌≡◌, ◌≢◌, refl, sym, ap, ◌∙◌, subst, true, false, Option, none, some, [], length, take,
  if◌then◌else◌, inl, inr, Bool-cases,
}
use cmdtrail.Text.{Bytes, Text, codes, text_eq}
use cmdtrail.Text.Search.{text_eq_refl, eq_of_text_eq}
use cmdtrail.FilePath.{FilePath, dot}
use cmdtrail.Result.{Result, ok, err}
use cmdtrail.System.{Metadata}
use cmdtrail.Disk.{Disk, Holds, IsDisk}

abbrev pub Files : Type 0
Files = FilePath → Option Bytes

abbrev pub no_files : Files
no_files path = none

abbrev file : ℕ → Metadata
file n = record {
  is_file = true;
  is_dir = false;
  is_symlink = false;
  len = n;
  modified_ns = none;
  readonly = false;
  mode = 0o600;
}

abbrev directory : Metadata
directory = record {
  is_file = false;
  is_dir = true;
  is_symlink = false;
  len = 0;
  modified_ns = none;
  readonly = false;
  mode = 0o755;
}

abbrev pub put : Files → FilePath → Bytes → Files
put s p content q = if text_eq q p then some content else s q

abbrev metadata_of : FilePath → Option Bytes → Result Text Metadata
metadata_of p (some content) = ok (file (length content))
metadata_of p none = if text_eq p dot then ok directory else err (codes "NotFound")

abbrev opened : Option Bytes → Result Text (Unit {0})
opened (some content) = ok tt
opened none = err (codes "NotFound")

abbrev read_of : Option Bytes → ℕ → Result Text Bytes
read_of (some content) n = ok (take n content)
read_of none n = err (codes "NotFound")

abbrev create : Files → FilePath → Option Bytes → Files × Result Text (Unit {0})
create s p (some content) = (s, err (codes "AlreadyExists"))
create s p none = (put s p [], ok tt)

abbrev pub sample_disk : Disk Files
sample_disk = record {
  metadata = λ s p. metadata_of p (s p);
  symlink_metadata = λ s p. metadata_of p (s p);
  create_new = λ s p. create s p (s p);
  write_all = λ s p content. (put s p content, ok tt);
  sync_all = λ s p. (s, ok tt);
  open_file = λ s p. opened (s p);
  read_up_to = λ s p n. read_of (s p) n;
}

put_same : (s : Files) (p : FilePath) (content : Bytes) → put s p content p ≡ some content
put_same s p content = rw (text_eq_refl p) refl

put_other : (s : Files) (p q : FilePath) (content : Bytes) → q ≢ p → put s p content q ≡ s q
put_other s p q content h = elim (Bool-cases (text_eq q p)) [
  | inl e ↦ absurd (h (eq_of_text_eq q p e))
  | inr e ↦ rw e refl
]

-- What a path holds depends on its file only.
same_file :
    (s t : Files) (q : FilePath) (content : Bytes)
    → s q ≡ t q
    → Holds sample_disk s q content
    → Holds sample_disk t q content
same_file s t q content e h = record {
  found =
      subst
        (λ o.
          (m : Metadata) × (metadata_of q o ≡ ok m) × (m.is_file ≡ true) × (m.len ≡ length content))
        e h.found;
  opens = subst (λ o. opened o ≡ ok tt) e h.opens;
  reads = λ n. subst (λ o. read_of o n ≡ ok (take n content)) e (h.reads n);
}

Holds-file :
    (s : Files) (q : FilePath) (content : Bytes)
    → s q ≡ some content
    → Holds sample_disk s q content
Holds-file s q content e = record {
  found =
      subst
        (λ o.
          (m : Metadata) × (metadata_of q o ≡ ok m) × (m.is_file ≡ true) × (m.len ≡ length content))
        (sym e) (file (length content), refl, refl, refl);
  opens = subst (λ o. opened o ≡ ok tt) (sym e) refl;
  reads = λ n. subst (λ o. read_of o n ≡ ok (take n content)) (sym e) refl;
}

-- A path that holds something is not one where nothing is.
apart :
    (s : Files) (p q : FilePath) (content : Bytes)
    → s p ≡ none
    → Holds sample_disk s q content
    → q ≢ p
apart s p q content e h same =
    let opens : opened none ≡ ok tt = subst (λ o. opened o ≡ ok tt) (ap s same ∙ e) h.opens in cc

create-Holds :
    (s : Files) (p q : FilePath) (content : Bytes) (there : Option Bytes)
    → s p ≡ there
    → Holds sample_disk s q content
    → Holds sample_disk (create s p there).0 q content
create-Holds s p q content (some old) e h = h
create-Holds s p q content none e h =
    same_file s (put s p []) q content (sym (put_other s p q [] (apart s p q content e h))) h

-- A creation that succeeds.
created_at :
    (s t : Files) (p : FilePath) (there : Option Bytes)
    → create s p there ≡ (t, ok tt)
    → (there ≡ none) × (put s p [] ≡ t)
created_at s t p (some old) h = cc
created_at s t p none h = (refl, ap (λ x. x.0) h)

pub sample_disk-IsDisk : IsDisk sample_disk
sample_disk-IsDisk = record {
  create_keeps = λ s p q content h. create-Holds s p q content (s p) refl h;
  write_keeps = λ s t p q new content made h.
      let (free, e) = created_at s t p (s p) made in
      let other = apart s p q content free h in
      same_file s (put t p new) q content
        (sym (put_other s p q [] other)
          ∙ ap (λ (f : Files). f q) e
          ∙ sym (put_other t p q new other))
        h;
  sync_keeps = λ s p q content h. h;
  write_holds = λ s t u p new made wrote.
      Holds-file u p new (ap (λ x. (x.0) p) (sym wrote) ∙ put_same t p new);
}
