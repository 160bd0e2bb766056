-- ===== src/Dockerutil/Client/Credentials.antt =====
-- What `parseConfig` of dockerutil/client.go answers.
use envbox.Prelude.{
  ap, ◌∙◌, Error, wrap, codes, not_exist, ◌++◌, ◌≡◌, ◌≢◌, refl, List, [], ◌∷◌, Option, none, some,
  Bytes, Result, ok, err, All, cons-ne-nil, ◌⊎◌, inl, inr,
}
use envbox.Dockerutil.Client.{
  AuthConfig, AuthEntry, Config, to_auth_config, decoded_config, usable, first_config, chosen,
  parse_config, auth_config_from_path,
}

-- A config has a token and nothing else, or a user and a password and no token.
abbrev pub HasSecret : AuthConfig → Type 0
HasSecret c =
    ((c.identity_token ≢ []) × (c.username ≡ []) × (c.password ≡ []))
    ⊎ ((c.username ≢ []) × (c.password ≢ []) × (c.identity_token ≡ []))

-- No secret is in decoded credentials.
abbrev pub NoSecret : Result (Bytes × Bytes) → Type 0
NoSecret (ok (username, secret)) = secret ≡ []
NoSecret (err e) = Unit

-- An entry without a token, without a user and password, and with no secret in its `auth`.
abbrev pub Useless : (AuthEntry → Result (Bytes × Bytes)) → AuthEntry → Type 0
Useless decode e =
    (e.identity_token ≡ []) × ((e.username ≡ []) ⊎ (e.password ≡ [])) × NoSecret (decode e)

to_auth_config-HasSecret : (u s : Bytes) → s ≢ [] → HasSecret (to_auth_config u s)
unfolding to_auth_config
to_auth_config-HasSecret [] s h = inl (h, refl, refl)
to_auth_config-HasSecret (c ∷ u) s h = inr (cons-ne-nil _ _, h, refl)

-- What a round of the loop finds, as a value of its own.
abbrev Found : Bytes → Bytes → Bytes → Result (Bytes × Bytes) → Option AuthConfig → Type 0
Found token u p d (some c) = HasSecret c
Found token u p d none = (token ≡ []) × ((u ≡ []) ⊎ (p ≡ [])) × NoSecret d

decoded-Found :
    (u p : Bytes) (d : Result (Bytes × Bytes))
    → (u ≡ []) ⊎ (p ≡ [])
    → Found [] u p d (decoded_config d)
unfolding decoded_config
decoded-Found u p (ok (user, [])) h = (refl, h, refl)
decoded-Found u p (ok (user, c ∷ s)) h = to_auth_config-HasSecret user (c ∷ s) (cons-ne-nil _ _)
decoded-Found u p (err e) h = (refl, h, tt)

usable-Found :
    (token u p : Bytes) (d : Result (Bytes × Bytes)) → Found token u p d (usable token u p d)
unfolding usable
usable-Found (c ∷ token) u p d = to_auth_config-HasSecret [] (c ∷ token) (cons-ne-nil _ _)
usable-Found [] (c ∷ u) (x ∷ p) d = to_auth_config-HasSecret (c ∷ u) (x ∷ p) (cons-ne-nil _ _)
usable-Found [] (c ∷ u) [] d = decoded-Found (c ∷ u) [] d (inr refl)
usable-Found [] [] p d = decoded-Found [] p d (inl refl)

-- The outcome of the loop over entries.
abbrev pub LoopOutcome :
    (AuthEntry → Result (Bytes × Bytes)) → List AuthEntry → Result AuthConfig → Type 0
LoopOutcome decode es (ok c) = HasSecret c
LoopOutcome decode es (err e) = All (Useless decode) es

extend :
    (decode : AuthEntry → Result (Bytes × Bytes)) (e : AuthEntry) (es : List AuthEntry)
    (r : Result AuthConfig)
    → Useless decode e
    → LoopOutcome decode es r
    → LoopOutcome decode (e ∷ es) r
extend decode e es (ok c) h o = o
extend decode e es (err x) h o = (h, o)

round-LoopOutcome :
    (decode : AuthEntry → Result (Bytes × Bytes)) (e : AuthEntry) (es : List AuthEntry)
    (r : Result AuthConfig)
    → LoopOutcome decode es r
    → (o : Option AuthConfig) → Found e.identity_token e.username e.password (decode e) o
    → LoopOutcome decode (e ∷ es) (elim o [ some config ↦ ok config | none ↦ r ])
round-LoopOutcome decode e es r rest (some c) h = h
round-LoopOutcome decode e es r rest none h = extend decode e es r h rest

first_config-LoopOutcome :
    (decode : AuthEntry → Result (Bytes × Bytes)) (reg : Bytes) (es : List AuthEntry)
    → LoopOutcome decode es (first_config decode reg es)
unfolding first_config
first_config-LoopOutcome decode reg [] = tt
first_config-LoopOutcome decode reg (e ∷ es) =
    round-LoopOutcome decode e es (first_config decode reg es)
      (first_config-LoopOutcome decode reg es)
      (usable e.identity_token e.username e.password (decode e))
      (usable-Found e.identity_token e.username e.password (decode e))

-- A config that is returned has a secret. An error means that the credentials of the host failed, or that
-- there are none and no entry is of use.
abbrev pub Outcome :
    (AuthEntry → Result (Bytes × Bytes))
    → List AuthEntry
    → Result (Bytes × Bytes)
    → Result AuthConfig
    → Type 0
Outcome decode es credentials (ok c) = HasSecret c
Outcome decode es (ok (username, secret)) (err e) = (secret ≡ []) × All (Useless decode) es
Outcome decode es (err why) (err e) = Unit

chosen-Outcome :
    (decode : AuthEntry → Result (Bytes × Bytes)) (es : List AuthEntry) (rest : Result AuthConfig)
    (credentials : Result (Bytes × Bytes))
    → LoopOutcome decode es rest
    → Outcome decode es credentials (chosen rest credentials)
unfolding chosen
chosen-Outcome decode es rest (ok (u, c ∷ s)) h =
    to_auth_config-HasSecret u (c ∷ s) (cons-ne-nil _ _)
chosen-Outcome decode es (ok x) (ok (u, [])) h = h
chosen-Outcome decode es (err x) (ok (u, [])) h = (refl, h)
chosen-Outcome decode es rest (err why) h = tt

-- A config that `parseConfig` returns has an identity token and nothing else, or a user and a password and
-- no token, in whatever order the entries are met. Where it returns an error, dockercfg failed to give
-- credentials for the host, or it gave no secret and no entry has a token, a user with a password, or an
-- `auth` that decodes to a secret.
pub parse_config-Outcome :
    (resolve : Bytes → Bytes) (decode : AuthEntry → Result (Bytes × Bytes)) (cfg : Config)
    (reg : Bytes)
    → Outcome decode cfg.entries
        (cfg.credentials (resolve reg))
        (parse_config resolve decode cfg reg)
unfolding parse_config
parse_config-Outcome resolve decode cfg reg =
    chosen-Outcome decode cfg.entries (first_config decode reg cfg.entries)
      (cfg.credentials (resolve reg)) (first_config-LoopOutcome decode reg cfg.entries)

decoded_config-Useless : (d : Result (Bytes × Bytes)) → NoSecret d → decoded_config d ≡ none
unfolding decoded_config
decoded_config-Useless (ok (user, [])) h = refl
decoded_config-Useless (ok (user, c ∷ s)) h = absurd (cons-ne-nil c s h)
decoded_config-Useless (err e) h = refl

usable-Useless :
    (token u p : Bytes) (d : Result (Bytes × Bytes))
    → token ≡ []
    → (u ≡ []) ⊎ (p ≡ [])
    → NoSecret d
    → usable token u p d ≡ none
unfolding usable
usable-Useless (c ∷ token) u p d e h n = absurd (cons-ne-nil c token e)
usable-Useless [] (c ∷ u) (x ∷ p) d e (inl h) n = absurd (cons-ne-nil c u h)
usable-Useless [] (c ∷ u) (x ∷ p) d e (inr h) n = absurd (cons-ne-nil x p h)
usable-Useless [] (c ∷ u) [] d e h n = decoded_config-Useless d n
usable-Useless [] [] p d e h n = decoded_config-Useless d n

-- The error where no entry is of use.
abbrev pub no_config : Bytes → Error
no_config reg =
    wrap (codes "no auth config found for registry " ++ reg)
      (record { cause = not_exist; text = not_exist })

first_config-Useless :
    (decode : AuthEntry → Result (Bytes × Bytes)) (reg : Bytes) (es : List AuthEntry)
    → All (Useless decode) es
    → first_config decode reg es ≡ err (no_config reg)
unfolding first_config
first_config-Useless decode reg [] _ = refl
first_config-Useless decode reg (e ∷ es) ((token, user, secret), a) =
    rw
      (
        first_config,
        usable-Useless e.identity_token e.username e.password (decode e) token user secret,
      )
      (first_config-Useless decode reg es a)

pub parse_config-Useless :
    (resolve : Bytes → Bytes) (decode : AuthEntry → Result (Bytes × Bytes)) (cfg : Config)
    (reg user : Bytes)
    → cfg.credentials (resolve reg) ≡ ok (user, [])
    → All (Useless decode) cfg.entries
    → parse_config resolve decode cfg reg ≡ err (no_config reg)
unfolding parse_config chosen
parse_config-Useless resolve decode cfg reg user none_found a =
    ap (chosen (first_config decode reg cfg.entries)) none_found
    ∙ first_config-Useless decode reg cfg.entries a

pub auth_config_from_path-Useless :
    (load : Bytes → Result Config) (resolve : Bytes → Bytes)
    (decode : AuthEntry → Result (Bytes × Bytes)) (path reg user : Bytes) (cfg : Config)
    → load path ≡ ok cfg
    → cfg.credentials (resolve reg) ≡ ok (user, [])
    → All (Useless decode) cfg.entries
    → auth_config_from_path load resolve decode path reg ≡ err (no_config reg)
unfolding auth_config_from_path
auth_config_from_path-Useless load resolve decode path reg user cfg loaded none_found a =
    rw loaded (parse_config-Useless resolve decode cfg reg user none_found a)
