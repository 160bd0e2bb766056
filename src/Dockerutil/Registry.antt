-- ===== src/Dockerutil/Registry.antt =====
-- dockerutil/registry.go: `WriteCertsForRegistry`, which copies certificates for the Docker daemon.
--
-- What the file system answers is a value: whether the registry's directory is there, what making it
-- answers, whether the given path is a directory, its entries, and what a copy answers behind the copies
-- before it. The copies made so far are the second component of a run.
mod Copies
mod Tests
use envbox.Prelude.{
  Bool, true, false, not, List, [], ◌∷◌, ◌++◌, Option, none, some, Bytes, codes, Error, wrap,
  Result, ok, err, if◌then◌else◌, join_path,
}

pub record DirEntry : Type 0 where
  pub name : Bytes
  pub is_dir : Bool

-- A copy: the source and the destination.
abbrev pub Copy : Type 0
Copy = Bytes × Bytes

pub record Certs : Type 0 where
  -- `fs.Stat(registryCertsDir)` finds the directory.
  pub is_there : Bool
  pub made : Option Error
  -- `fs.Stat(certsDir)`, with `IsDir`
  pub stat : Result Bool
  pub entries : Result (List DirEntry)
  -- `copyCertFile`
  pub copy : List Copy → Copy → Option Error

module _ (c : Certs) (certs_dir registry_certs_dir : Bytes) where
  pub copy_entries : List DirEntry → List Copy → Option Error × List Copy
  copy_entries [] copies = (none, copies)
  copy_entries (e ∷ es) copies =
      let file : Copy =
        (join_path (certs_dir ∷ e.name ∷ []), join_path (registry_certs_dir ∷ e.name ∷ [])) in
      let rest = copy_entries es (copies ++ file ∷ []) in
      let skip = copy_entries es copies in
      if e.is_dir then skip else elim (c.copy copies file) [
        | some error ↦ (some (wrap (codes "copy cert file " ++ e.name) error), copies ++ file ∷ [])
        | none ↦ rest
      ]

  copy_file : Option Error × List Copy
  copy_file =
      let file : Copy = (certs_dir, join_path (registry_certs_dir ∷ codes "ca.crt" ∷ [])) in
      elim (c.copy [] file) [
        | some error ↦ (some (wrap (codes "copy cert file") error), file ∷ [])
        | none ↦ (none, file ∷ [])
      ]

  copy_certs : Result Bool → Result (List DirEntry) → Option Error × List Copy
  unfolding copy_file
  copy_certs (err e) entries = (some (wrap (codes "stat certs directory/file") e), [])
  copy_certs (ok false) entries = copy_file
  copy_certs (ok true) (err e) = (some (wrap (codes "read certs directory") e), [])
  copy_certs (ok true) (ok entries) = copy_entries entries []

  certs_for_dir : Bool → Option Error → Option Error × List Copy
  unfolding copy_certs
  certs_for_dir true made = (none, [])
  certs_for_dir false (some e) = (some (wrap (codes "create registry certs directory") e), [])
  certs_for_dir false none = copy_certs c.stat c.entries

pub write_certs_for_registry : Certs → Bytes → Bytes → Option Error × List Copy
unfolding certs_for_dir
write_certs_for_registry c registry_name certs_dir =
    certs_for_dir c certs_dir (join_path (codes "/etc/docker/certs.d" ∷ registry_name ∷ []))
      c.is_there c.made
