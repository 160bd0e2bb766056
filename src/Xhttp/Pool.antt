-- ===== src/Xhttp/Pool.antt =====
-- Which certificates the client of xhttp/client.go trusts.
use envbox.Prelude.{
  ◌≡◌, ◌⊎◌, inl, inr, refl, ap, ◌∙◌, true, false, List, [], ◌∷◌, Option, some, Bytes, codes, same,
  join_path, ok, context, Result-cases,
}
use envbox.Xhttp.{Files, add_cert, add_entries, cert_pool, client}

module _ {Pool : Type 0} (s : Files Pool) where
  -- The texts are those of the files.
  abbrev pub Read : List Bytes → List Bytes → Type 0
  Read [] [] = Unit
  Read [] (b ∷ bs) = ⊥
  Read (path ∷ paths) [] = ⊥
  Read (path ∷ paths) (b ∷ bs) = (s.read_file path ≡ ok b) × Read paths bs

  abbrev pub append_all : Pool → List Bytes → Pool
  append_all pool [] = pool
  append_all pool (b ∷ bs) = append_all (s.append pool b) bs

  abbrev pub paths_in : Bytes → List Bytes → List Bytes
  paths_in dir [] = []
  paths_in dir (name ∷ names) = join_path (dir ∷ name ∷ []) ∷ paths_in dir names

  -- The files that a path stands for: itself, or those in the directory.
  abbrev pub IsFiles : Bytes → List Bytes → Type 0
  IsFiles path paths =
      ((s.stat path ≡ ok false) × (paths ≡ path ∷ []))
      ⊎ ((names : List Bytes) × (s.stat path ≡ ok true)
          × (s.read_dir path ≡ ok names)
          × (paths ≡ paths_in path names))

  add_cert-ok :
      (pool : Pool) (path : Bytes) (pool' : Pool)
      → context (codes "add cert") (add_cert s pool path) ≡ ok pool'
      → (b : Bytes) × (s.read_file path ≡ ok b) × (s.append pool b ≡ pool')
  unfolding add_cert
  add_cert-ok pool path pool' e = elim (Result-cases (s.read_file path)) [
    | inl (b, read) ↦ (b, read, cc (rw (add_cert, read) at e))
    | inr (x, failed) ↦ absurd (cc (rw (add_cert, failed) at e))
  ]

  add_entries-ok :
      (dir : Bytes) (names : List Bytes) (pool pool' : Pool)
      → add_entries s dir names pool ≡ ok pool'
      → (bs : List Bytes) × Read (paths_in dir names) bs × (append_all pool bs ≡ pool')
  unfolding add_entries
  add_entries-ok dir [] pool pool' e = ([], tt, cc e)
  add_entries-ok dir (name ∷ names) pool pool' e =
      elim (Result-cases
        (context (codes "add cert") (add_cert s pool (join_path (dir ∷ name ∷ []))))) [
          | inr (x, failed) ↦ absurd (cc (rw (add_entries, failed) at e))
          | inl (next, added) ↦
              let (b, read, is_next) = add_cert-ok pool _ next added in
              let (bs, rest, whole) =
                add_entries-ok dir names next pool' (rw (add_entries, added) at e) in
              (b ∷ bs, (read, rest), ap (λ p. append_all p bs) is_next ∙ whole)
        ]

  cert_pool-ok :
      (path : Bytes) (pool : Pool)
      → cert_pool s path ≡ ok pool
      → (base : Pool) × (paths : List Bytes) × (bs : List Bytes) × (s.system ≡ ok base)
        × IsFiles path paths
        × Read paths bs
        × (append_all base bs ≡ pool)
  unfolding cert_pool
  cert_pool-ok path pool e = elim (Result-cases s.system) [
    | inr (x, failed) ↦ absurd (cc (rw (cert_pool, failed) at e))
    | inl (base, system) ↦ elim (Result-cases (s.stat path)) [
      | inr (x, failed) ↦ absurd (cc (rw (cert_pool, system, failed) at e))
      | inl (false, is_file) ↦
          let (b, read, whole) =
            add_cert-ok base path pool (rw (cert_pool, system, is_file) at e) in
          (base, path ∷ [], b ∷ [], system, inl (is_file, refl), (read, tt), whole)
      | inl (true, is_dir) ↦ elim (Result-cases (s.read_dir path)) [
        | inr (x, failed) ↦ absurd (cc (rw (cert_pool, system, is_dir, failed) at e))
        | inl (names, listed) ↦
            let (bs, read, whole) =
              add_entries-ok path names base pool (rw (cert_pool, system, is_dir, listed) at e) in
            (base, paths_in path names, bs, system, inr (names, is_dir, listed, refl), read, whole)
      ]
    ]
  ]

-- If a path is given and the client is made, it trusts the certificates of the system and then those of the
-- file, or of each file in the directory in its order, all of which were read.
pub client_lem :
    {Pool : Type 0} (s : Files Pool) (path : Bytes) (trusted : Option Pool)
    → same path [] ≡ false
    → client s path ≡ ok trusted
    → (base : Pool) × (paths : List Bytes) × (bs : List Bytes) × (s.system ≡ ok base)
      × IsFiles s path paths
      × Read s paths bs
      × (trusted ≡ some (append_all s base bs))
unfolding client
client_lem s path trusted given_path e = elim (Result-cases (cert_pool s path)) [
  | inr (x, failed) ↦ absurd (cc (rw (client, given_path, failed) at e))
  | inl (pool, made) ↦
      let (base, paths, bs, system, files, read, whole) = cert_pool-ok s path pool made in
      let is_pool : some pool ≡ trusted = cc (rw (client, given_path, made) at e) in
      (base, paths, bs, system, files, read, cc (whole, is_pool))
]
