-- ===== src/Dockerutil/Registry/Tests.antt =====
-- The theorem on dockerutil/registry.go at a directory with a file, a directory and a file.
use envbox.Prelude.{◌≡◌, refl, true, false, List, [], ◌∷◌, none, codes, ok, select, join_path}
use envbox.Dockerutil.Registry.{DirEntry, Certs, write_certs_for_registry}
use envbox.Dockerutil.Registry.Copies.{tried, copies_of, is_file, write_certs_for_registry_lem}

abbrev entries : List DirEntry
entries =
    record { name = codes "ca.crt"; is_dir = false }
    ∷ record { name = codes "old"; is_dir = true }
    ∷ record { name = codes "b.crt"; is_dir = false }
    ∷ []

abbrev certs : Certs
certs = record {
  is_there = false;
  made = none;
  stat = ok true;
  entries = ok entries;
  copy = λ before file. none;
}

write_certs_for_registry_lem_run :
    (write_certs_for_registry certs (codes "ghcr.io") (codes "/certs")).1
    ≡ tried certs.copy [] (
        copies_of
          (codes "/certs")
          (join_path (codes "/etc/docker/certs.d" ∷ codes "ghcr.io" ∷ []))
          (select is_file entries))
write_certs_for_registry_lem_run =
    write_certs_for_registry_lem certs (codes "ghcr.io") (codes "/certs") entries refl refl refl
      refl
