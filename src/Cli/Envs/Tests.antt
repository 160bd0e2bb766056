-- ===== src/Cli/Envs/Tests.antt =====
-- The theorems about environment variables at concrete inputs.
use envbox.Prelude.{
  ◌*◌, ◌≡◌, refl, false, ◌&&◌, List, [], ◌∷◌, ◌++◌, Bytes, codes, same, split, cons_first, join,
  has_prefix, has_suffix, trim_suffix, trim_space, ◌==◌, any, select, arith,
}
use envbox.Cli.Envs.{
  keeps_tokens, keeps, filter_by, filter_elements, agent_subsystem_env, tidy_names, insert_name,
  precedes, sort_strings, agent_subsystem, default_container_envs,
}
use envbox.Cli.Envs.Filter.{
  count, keepers, count-filter_elements, filter_elements_star, filter_elements_name,
}
use envbox.Cli.Envs.Subsystem.{Lists, agent_subsystem_lem, default_container_envs_lem}

abbrev env : List Bytes
env = codes "KUBERNETES_PORT=80" ∷ codes "MY_ENV=1" ∷ codes "MY_ENV_2=2" ∷ codes "KUBERNETES_X" ∷ []

-- The example of README.md.
filter_env :
    filter_elements env (codes "KUBERNETES_*" ∷ codes " MY_ENV" ∷ [])
    ≡ codes "KUBERNETES_PORT=80" ∷ codes "MY_ENV=1" ∷ []
unfolding filter_elements filter_by keeps keeps_tokens split cons_first trim_space has_suffix
    trim_suffix has_prefix same
filter_env = refl

subsystem : agent_subsystem (codes "exectrace, envbox,,aaa") ≡ codes "aaa,envbox,exectrace"
unfolding agent_subsystem sort_strings insert_name precedes tidy_names split cons_first trim_space
    same join
subsystem = refl

count-filter_elements_run :
    count (codes "A=1") (filter_elements (codes "A=1" ∷ []) (codes "A" ∷ codes "*" ∷ []))
    ≡ keepers (codes "A=1") (codes "A" ∷ codes "*" ∷ []) * count (codes "A=1") (codes "A=1" ∷ [])
count-filter_elements_run =
    count-filter_elements (codes "A=1") (codes "A=1" ∷ []) (codes "A" ∷ codes "*" ∷ [])

trimmed_star : trim_space (codes " KUBE_*") ≡ codes "KUBE_" ++ codes "*"
unfolding trim_space
trimmed_star = refl

filter_elements_star_run :
    filter_elements env (codes " KUBE_*" ∷ [])
    ≡ select (λ e. any e (λ c. c == b'=') && has_prefix e (codes "KUBE_")) env
filter_elements_star_run =
    filter_elements_star (codes " KUBE_*") (codes "KUBE_") env trimmed_star (omega arith)

trimmed_name : trim_space (codes "MY_ENV") ≡ codes "MY_ENV"
unfolding trim_space
trimmed_name = refl

plain_name : has_suffix (codes "MY_ENV") (codes "*") ≡ false
unfolding has_suffix has_prefix
plain_name = refl

filter_elements_name_run :
    filter_elements env (codes "MY_ENV" ∷ [])
    ≡ select (λ e. has_prefix e (codes "MY_ENV" ++ codes "=")) env
filter_elements_name_run =
    filter_elements_name (codes "MY_ENV") (codes "MY_ENV") env trimmed_name (omega arith) plain_name

agent_subsystem_lem_run : Lists (codes "b, a") (agent_subsystem (codes "b, a"))
agent_subsystem_lem_run = agent_subsystem_lem (codes "b, a")

other_env : has_prefix (codes "PATH=/bin") agent_subsystem_env ≡ false
unfolding has_prefix
other_env = refl

default_container_envs_lem_example :
    (given : Bytes) × (default_container_envs
        (codes "PATH=/bin" ∷ (agent_subsystem_env ++ codes "exectrace") ∷ [])
        (codes "secret")
      ≡ (codes "CODER_AGENT_TOKEN=" ++ codes "secret") ∷ (agent_subsystem_env ++ given) ∷ [])
    × Lists (codes "exectrace") given
default_container_envs_lem_example =
    default_container_envs_lem (codes "PATH=/bin" ∷ []) [] (codes "exectrace") (codes "secret")
      (other_env, tt)
