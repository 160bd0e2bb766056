-- ===== src/Cli/Envs.antt =====
-- cli/docker.go: the environment variables that the inner container is given.
pub mod Filter
mod Sorted
pub mod Subsystem
mod Tests
use envbox.Prelude.{
  ℕ, ◌≡◌, Bool, true, false, ◌&&◌, ◌||◌, not, List, [], ◌∷◌, ◌++◌, Bytes, codes, same, split, join,
  ltb, leb, ◌==◌, if◌then◌else◌, has_prefix, has_suffix, trim_prefix, trim_suffix, trim_space,
  length, any,
}

-- The body of the inner loop of `filterElements`, over the tokens of an entry: is the entry kept?
keeps_tokens : Bytes → List Bytes → Bool
keeps_tokens f [] = false
keeps_tokens f (key ∷ []) = false
keeps_tokens f (key ∷ value ∷ more) =
    if has_suffix f (codes "*") then has_prefix key (trim_suffix f (codes "*")) else same key f

pub keeps : Bytes → Bytes → Bool
unfolding keeps_tokens
keeps f s = keeps_tokens f (split s b'=')

-- The inner loop: the entries that one filter keeps.
pub filter_by : Bytes → List Bytes → List Bytes
filter_by f [] = []
filter_by f (s ∷ ss) = let rest = filter_by f ss in if keeps f s then s ∷ rest else rest

pub filter_elements : List Bytes → List Bytes → List Bytes
filter_elements ss [] = []
filter_elements ss (f ∷ filters) = filter_by (trim_space f) ss ++ filter_elements ss filters

abbrev pub agent_subsystem_env : Bytes
agent_subsystem_env = codes "CODER_AGENT_SUBSYSTEM="

-- The loop over the environment, which stops at the first entry of the variable.
pub existing_subsystem : List Bytes → Bytes
existing_subsystem [] = []
existing_subsystem (e ∷ env) =
    let rest = existing_subsystem env in
    if has_prefix e agent_subsystem_env then trim_prefix e agent_subsystem_env else rest

-- The loop that trims the names and leaves out empty and repeated ones; `seen` holds those of `tidy`.
pub tidy_names : List Bytes → List Bytes → List Bytes
tidy_names [] tidy = tidy
tidy_names (s ∷ ss) tidy =
    let name = trim_space s in
    tidy_names ss (if same name [] || any tidy (same name) then tidy else tidy ++ name ∷ [])

-- The order of strings: by their bytes.
pub precedes : Bytes → Bytes → Bool
precedes [] t = true
precedes (c ∷ s) [] = false
precedes (c ∷ s) (d ∷ t) = ltb c d || (c == d && precedes s t)

insert_name : Bytes → List Bytes → List Bytes
insert_name s [] = s ∷ []
insert_name s (t ∷ ts) =
    let rest = insert_name s ts in if precedes s t then s ∷ t ∷ ts else t ∷ rest

-- `sort.Strings`
pub sort_strings : List Bytes → List Bytes
unfolding insert_name
sort_strings [] = []
sort_strings (s ∷ ss) = insert_name s (sort_strings ss)

pub agent_subsystem : Bytes → Bytes
agent_subsystem [] = codes "envbox"
agent_subsystem (c ∷ s) =
    join (sort_strings (tidy_names (split (c ∷ s) b',' ++ codes "envbox" ∷ []) [])) b','

pub default_container_envs : List Bytes → Bytes → List Bytes
default_container_envs env agent_token =
    (codes "CODER_AGENT_TOKEN=" ++ agent_token)
    ∷ (codes "CODER_AGENT_SUBSYSTEM=" ++ agent_subsystem (existing_subsystem env))
    ∷ []
