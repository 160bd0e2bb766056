-- ===== src/Dockerutil/Client/Tests.antt =====
-- `parseConfig` at a config file.
use envbox.Prelude.{◌≡◌, refl, List, [], ◌∷◌, Bytes, codes, failure, Result, ok, err}
use envbox.Dockerutil.Client.{AuthEntry, Config, parse_config}
use envbox.Dockerutil.Client.Credentials.{Outcome, parse_config-Outcome}

-- An entry that nothing can be read from, and one with an identity token.
abbrev entries : List AuthEntry
entries =
    record { username = codes "coder"; password = []; identity_token = []; auth = codes "?" }
    ∷ record { username = []; password = []; identity_token = codes "token"; auth = [] }
    ∷ []

abbrev no_credentials : Config
no_credentials = record { credentials = λ host. ok ([], []); entries = entries }

abbrev undecoded : AuthEntry → Result (Bytes × Bytes)
undecoded e = err (failure (codes "invalid auth"))

parse_config_run :
    parse_config (λ reg. reg) undecoded no_credentials (codes "docker.io")
    ≡ ok (record { username = []; password = []; identity_token = codes "token" })
unfolding parse_config
parse_config_run = refl

parse_config-Outcome_run :
    Outcome undecoded entries
      (ok ([], []))
      (parse_config (λ reg. reg) undecoded no_credentials (codes "docker.io"))
parse_config-Outcome_run =
    parse_config-Outcome (λ reg. reg) undecoded no_credentials (codes "docker.io")
