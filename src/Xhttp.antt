-- ===== src/Xhttp.antt =====
-- xhttp/client.go. `Pool` is the type of certificate pools, which crypto/x509 has.
mod Pool
mod Tests
use envbox.Prelude.{
  Bool, true, false, List, [], ◌∷◌, Option, none, some, Bytes, codes, same, join_path, ◌++◌, Result,
  ok, err, ◌>>=◌, context, if◌then◌else◌,
}

pub record Files (Pool : Type 0) : Type 0 where
  -- `x509.SystemCertPool`
  pub system : Result Pool
  -- `AppendCertsFromPEM`, whose answer only decides what is logged
  pub append : Pool → Bytes → Pool
  -- whether the path is a directory
  pub stat : Bytes → Result Bool
  -- the names in a directory, in order
  pub read_dir : Bytes → Result (List Bytes)
  pub read_file : Bytes → Result Bytes

module _ {Pool : Type 0} (s : Files Pool) where
  pub add_cert : Pool → Bytes → Result Pool
  add_cert pool path = context (codes "read file") (s.read_file path) >>= λ b. ok (s.append pool b)

  -- The loop over the entries of the directory.
  pub add_entries : Bytes → List Bytes → Pool → Result Pool
  unfolding add_cert
  add_entries certs_path [] pool = ok pool
  add_entries certs_path (name ∷ names) pool =
      context (codes "add cert") (add_cert pool (join_path (certs_path ∷ name ∷ []))) >>= λ pool'.
      add_entries certs_path names pool'

  pub cert_pool : Bytes → Result Pool
  unfolding add_entries
  cert_pool certs_path = context (codes "system cert pool") s.system >>= λ pool.
      context (codes "stat " ++ certs_path) (s.stat certs_path) >>= λ is_dir. elim is_dir [
        | false ↦ context (codes "add cert") (add_cert pool certs_path)
        | true ↦ context (codes "read dir " ++ certs_path) (s.read_dir certs_path) >>= λ names.
            add_entries certs_path names pool
      ]

  -- `Client`, as the pool of its transport; `none` is the default client.
  pub client : Bytes → Result (Option Pool)
  unfolding cert_pool
  client extra_certs_path =
      if same extra_certs_path []
      then ok none
      else context (codes "cert pool") (cert_pool extra_certs_path) >>= λ pool. ok (some pool)
