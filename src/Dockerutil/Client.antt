-- ===== src/Dockerutil/Client.antt =====
-- dockerutil/client.go: which credentials of a Docker config file are used for a registry.
--
-- The package dockercfg is not of the program: the host name of a registry, the credentials that it finds
-- for a host and the decoded `auth` of an entry are functions that the definitions take. The entries of the
-- file are in the order in which the loop over the map meets them.
pub mod Credentials
mod Tests
use envbox.Prelude.{
  List, [], ◌∷◌, ◌++◌, Option, none, some, Bytes, codes, Error, wrap, Result, ok, err, ◌>>=◌,
  context, not_exist,
}

-- `registry.AuthConfig`, the fields that are set.
pub record AuthConfig : Type 0 where
  pub username : Bytes
  pub password : Bytes
  pub identity_token : Bytes

-- `dockercfg.AuthConfig`, the fields that are read.
pub record AuthEntry : Type 0 where
  pub username : Bytes
  pub password : Bytes
  pub identity_token : Bytes
  pub auth : Bytes

pub record Config : Type 0 where
  -- `GetRegistryCredentials`
  pub credentials : Bytes → Result (Bytes × Bytes)
  -- `AuthConfigs`
  pub entries : List AuthEntry

pub to_auth_config : Bytes → Bytes → AuthConfig
to_auth_config [] secret = record { username = []; password = []; identity_token = secret }
to_auth_config (c ∷ username) secret = record {
  username = c ∷ username;
  password = secret;
  identity_token = [];
}

-- The last test of a round: a decoded secret that is not empty.
pub decoded_config : Result (Bytes × Bytes) → Option AuthConfig
unfolding to_auth_config
decoded_config (ok (username, [])) = none
decoded_config (ok (username, c ∷ secret)) = some (to_auth_config username (c ∷ secret))
decoded_config (err e) = none

-- The tests of a round, on the token, name and password of an entry and its decoded `auth`.
pub usable : Bytes → Bytes → Bytes → Result (Bytes × Bytes) → Option AuthConfig
unfolding decoded_config
usable (c ∷ token) username password decoded = some (to_auth_config [] (c ∷ token))
usable [] (c ∷ username) (d ∷ password) decoded =
    some (to_auth_config (c ∷ username) (d ∷ password))
usable [] (c ∷ username) [] decoded = decoded_config decoded
usable [] [] password decoded = decoded_config decoded

-- The loop over the entries.
pub first_config : (AuthEntry → Result (Bytes × Bytes)) → Bytes → List AuthEntry → Result AuthConfig
unfolding usable
first_config decode reg [] = err (
    wrap (codes "no auth config found for registry " ++ reg)
      (record { cause = not_exist; text = not_exist }))
first_config decode reg (e ∷ es) =
    let rest = first_config decode reg es in
    elim (usable e.identity_token e.username e.password (decode e)) [
      | some config ↦ ok config
      | none ↦ rest
    ]

-- What is made of the credentials that are found for the host.
pub chosen : Result AuthConfig → Result (Bytes × Bytes) → Result AuthConfig
unfolding first_config
chosen rest (ok (username, c ∷ secret)) = ok (to_auth_config username (c ∷ secret))
chosen rest (ok (username, [])) = rest
chosen rest (err e) = err (wrap (codes "get credentials from helper") e)

pub parse_config :
    (Bytes → Bytes) → (AuthEntry → Result (Bytes × Bytes)) → Config → Bytes → Result AuthConfig
unfolding chosen
parse_config resolve decode cfg reg =
    chosen (first_config decode reg cfg.entries) (cfg.credentials (resolve reg))

-- `dockercfg.FromFile` is `load`, and `json.Unmarshal` is `unmarshal`.
unfoldable pub auth_config_from_path :
    (Bytes → Result Config)
    → (Bytes → Bytes)
    → (AuthEntry → Result (Bytes × Bytes))
    → Bytes
    → Bytes
    → Result AuthConfig
unfolding parse_config
auth_config_from_path load resolve decode path reg =
    context (codes "load config") (load path) >>= λ config. parse_config resolve decode config reg

unfoldable pub auth_config_from_string :
    (Bytes → Result Config)
    → (Bytes → Bytes)
    → (AuthEntry → Result (Bytes × Bytes))
    → Bytes
    → Bytes
    → Result AuthConfig
unfolding parse_config
auth_config_from_string unmarshal resolve decode raw reg =
    context (codes "parse config") (unmarshal raw) >>= λ cfg. parse_config resolve decode cfg reg
