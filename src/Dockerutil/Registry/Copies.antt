-- ===== src/Dockerutil/Registry/Copies.antt =====
-- Which certificates `WriteCertsForRegistry` of dockerutil/registry.go copies.
use mathlib.Core.Path.{ap₂}
use envbox.Prelude.{
  ◌≡◌, refl, sym, ap, ◌∙◌, Bool, true, false, not, List, [], ◌∷◌, ◌++◌, append_assoc, append-nil,
  Option, none, some, Option-cases, Bytes, codes, Error, ok, Bool-cases, inl, inr, select,
  select_keep, select_skip, join_path,
}
use envbox.Dockerutil.Registry.{
  DirEntry, Copy, Certs, copy_entries, copy_certs, certs_for_dir, write_certs_for_registry,
}

-- An entry that is no directory.
abbrev pub is_file : DirEntry → Bool
is_file e = not e.is_dir

module _ (certs_dir registry_certs_dir : Bytes) where
  -- The copy of an entry.
  abbrev pub copy_of : DirEntry → Copy
  copy_of e = (join_path (certs_dir ∷ e.name ∷ []), join_path (registry_certs_dir ∷ e.name ∷ []))

  abbrev pub copies_of : List DirEntry → List Copy
  copies_of [] = []
  copies_of (e ∷ es) = copy_of e ∷ copies_of es

-- The copies that are made: all up to the first that fails.
abbrev pub tried : (List Copy → Copy → Option Error) → List Copy → List Copy → List Copy
tried copy before [] = []
tried copy before (file ∷ files) =
    let rest = tried copy (before ++ file ∷ []) files in
    elim (copy before file) [ some e ↦ file ∷ [] | none ↦ file ∷ rest ]

module _ (copy : List Copy → Copy → Option Error) (before : List Copy) (file : Copy)
    (files : List Copy) where
  tried_fine :
      copy before file ≡ none
      → tried copy before (file ∷ files) ≡ file ∷ tried copy (before ++ file ∷ []) files
  tried_fine fine = rw (tried, fine) refl

  tried_failed :
      (e : Error) → copy before file ≡ some e → tried copy before (file ∷ files) ≡ file ∷ []
  tried_failed e failed = rw (tried, failed) refl

module _ (c : Certs) (certs_dir registry_certs_dir : Bytes) where
  module _ (e : DirEntry) (es : List DirEntry) (copies : List Copy) where
    entry_dir :
        e.is_dir ≡ true
        → copy_entries c certs_dir registry_certs_dir (e ∷ es) copies
          ≡ copy_entries c certs_dir registry_certs_dir es copies
    unfolding copy_entries
    entry_dir h = rw (copy_entries, h) refl

    entry_copied :
        e.is_dir ≡ false
        → c.copy copies (copy_of certs_dir registry_certs_dir e) ≡ none
        → copy_entries c certs_dir registry_certs_dir (e ∷ es) copies
          ≡ copy_entries c certs_dir registry_certs_dir es
              (copies ++ copy_of certs_dir registry_certs_dir e ∷ [])
    unfolding copy_entries
    entry_copied h fine = rw (copy_entries, h, fine) refl

    entry_failed :
        (error : Error)
        → e.is_dir ≡ false
        → c.copy copies (copy_of certs_dir registry_certs_dir e) ≡ some error
        → (copy_entries c certs_dir registry_certs_dir (e ∷ es) copies).1
          ≡ copies ++ copy_of certs_dir registry_certs_dir e ∷ []
    unfolding copy_entries
    entry_failed error h failed = rw (copy_entries, h, failed) refl

  copy_entries-tried :
      (es : List DirEntry) (copies : List Copy)
      → (copy_entries c certs_dir registry_certs_dir es copies).1
        ≡ copies ++ tried c.copy copies (copies_of certs_dir registry_certs_dir (select is_file es))
  copy_entries-tried [] copies = unfold copy_entries in sym (append-nil copies)
  copy_entries-tried (e ∷ es) copies = elim (Bool-cases e.is_dir) [
    | inl is_dir ↦
        rw (select_skip is_file e es (ap not is_dir))
          (ap (λ r. r.1) (entry_dir e es copies is_dir) ∙ copy_entries-tried es copies)
    | inr is_a_file ↦
        let file = copy_of certs_dir registry_certs_dir e in
        elim (Option-cases (c.copy copies file)) [
          | inl fine ↦ rw (select_keep is_file e es (ap not is_a_file)) (
              ap (λ r. r.1) (entry_copied e es copies is_a_file fine)
              ∙ copy_entries-tried es (copies ++ file ∷ [])
              ∙ append_assoc copies (file ∷ []) _
              ∙ ap (λ l. copies ++ l) (sym (tried_fine c.copy copies file _ fine)))
          | inr (error, failed) ↦ rw (select_keep is_file e es (ap not is_a_file)) (
              entry_failed e es copies error is_a_file failed
              ∙ ap (λ l. copies ++ l) (sym (tried_failed c.copy copies file _ error failed)))
        ]
  ]

-- Where the registry has no directory yet and one can be made, and the path of the certificates is a
-- directory that can be read, the files in it are copied, in order and up to the first that fails, to
-- the same names in the registry's directory; directories in it are left out.
pub write_certs_for_registry_lem :
    (c : Certs) (registry_name certs_dir : Bytes) (entries : List DirEntry)
    → c.is_there ≡ false
    → c.made ≡ none
    → c.stat ≡ ok true
    → c.entries ≡ ok entries
    → (write_certs_for_registry c registry_name certs_dir).1
      ≡ tried c.copy [] (
          copies_of certs_dir
            (join_path (codes "/etc/docker/certs.d" ∷ registry_name ∷ []))
            (select is_file entries))
unfolding write_certs_for_registry certs_for_dir copy_certs
write_certs_for_registry_lem c registry_name certs_dir entries missing made is_dir listed =
    let dir = join_path (codes "/etc/docker/certs.d" ∷ registry_name ∷ []) in
    ap (λ r. r.1) (ap₂ (certs_for_dir c certs_dir dir) missing made)
    ∙ ap (λ r. r.1) (ap₂ (copy_certs c certs_dir dir) is_dir listed)
    ∙ copy_entries-tried c certs_dir dir entries []
