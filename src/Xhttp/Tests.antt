-- ===== src/Xhttp/Tests.antt =====
-- The client of xhttp/client.go for a directory with two files.
use envbox.Prelude.{
  ◌≡◌, refl, true, false, List, [], ◌∷◌, ◌++◌, some, Bytes, codes, same, ok, join_path, clean,
  split, cons_first, join,
}
use envbox.Xhttp.{Files, client}
use envbox.Xhttp.Pool.{IsFiles, Read, append_all, client_lem}

-- A pool is the list of its texts.
abbrev files : Files (List Bytes)
files = record {
  system = ok (codes "system" ∷ []);
  append = λ pool b. pool ++ b ∷ [];
  stat = λ path. ok true;
  read_dir = λ path. ok (codes "a.pem" ∷ codes "b.pem" ∷ []);
  read_file = λ path. ok path;
}

abbrev trusted : List Bytes
trusted = codes "system" ∷ codes "/certs/a.pem" ∷ codes "/certs/b.pem" ∷ []

client_run : client files (codes "/certs") ≡ ok (some trusted)
unfolding client same join_path clean split cons_first join
client_run = refl

client_lem_example :
    (base : List Bytes) × (paths : List Bytes) × (bs : List Bytes) × (files.system ≡ ok base)
    × IsFiles files (codes "/certs") paths
    × Read files paths bs
    × (some trusted ≡ some (append_all files base bs))
client_lem_example = client_lem files (codes "/certs") (some trusted) given_path client_run
  where
    given_path : same (codes "/certs") [] ≡ false
    given_path = unfold same in refl
