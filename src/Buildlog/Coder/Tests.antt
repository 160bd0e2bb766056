-- ===== src/Buildlog/Coder/Tests.antt =====
-- The theorems of buildlog/coder.go at concrete servers.
use envbox.Prelude.{
  ℕ, zero, suc, ◌+◌, ◌*◌, ◌<◌, ◌≤◌, ◌≡◌, refl, false, List, [], ◌∷◌, ◌++◌, map, none, some, Bytes,
  codes, same, ltb, Error, failure, ok, err, arith, length, if◌then◌else◌,
}
use envbox.Prelude.Steps.{answered}
use envbox.Buildlog.Cut.{concat, IsCut}
use envbox.Buildlog.Coder.{
  level_info, level_error, Log, Call, build_info, connect_rpc, send_loop, log_error, patch_logs,
  cancel, Api, agent_client_v2, connect_error, open_coder_client, open_coder_logger, send_v1,
}
use envbox.Buildlog.Coder.Sent.{
  OfLevel, texts, log_all, outputs, open_coder_client-texts, send_v1_lem,
}
use envbox.Buildlog.Coder.Connect.{
  tries, Fails, open_coder_client_connected, open_coder_client_done,
}

abbrev refused : Error
refused = failure (codes "refused")

-- A server of the version, which refuses the connection behind less than four calls and takes no
-- requests. The context is done behind `limit` calls.
abbrev server : Bytes → ℕ → Api
server version limit = record {
  build_info = λ t. ok version;
  patch_logs = λ t. some refused;
  connect_rpc = λ t. if ltb (length t) 4 then some refused else none;
  script_send = λ t. none;
  wait_until_empty = λ t. some refused;
  wait = λ t. ltb (length t) limit;
  now = λ t k. length t + k;
  major_minor = λ v. v;
  is_below = λ v w. same v (codes "v2.9");
}

abbrev new_server : Api
new_server = server (codes "v2.14") 9

new_version : same (codes "v2.14") (codes "v2.9") ≡ false
unfolding same
new_version = refl

-- The calls of two failed tries.
abbrev two_tries : List Call
two_tries =
    build_info
    ∷ connect_rpc
    ∷ log_error (codes "connect err")
    ∷ connect_rpc
    ∷ log_error (codes "connect err")
    ∷ []

two_fail :
    (limit : ℕ)
    → 4 ≤ limit
    → (j : ℕ) → j < 2
    → Fails (server (codes "v2.14") limit) (tries (build_info ∷ []) j)
two_fail limit le zero lt = (ground arith, (refused, refl))
two_fail limit le (suc zero) lt = (ground arith, (refused, refl))
two_fail limit le (suc (suc j)) lt = absurd (omega arith)

open_coder_client_connected_run :
    open_coder_client new_server 3 []
    ≡ some (ok (agent_client_v2 new_server), (two_tries ++ connect_rpc ∷ []) ++ send_loop ∷ [])
open_coder_client_connected_run =
    open_coder_client_connected new_server 2 0 [] (codes "v2.14") refl new_version
      (two_fail 9 (omega arith)) refl refl

open_coder_client_done_example :
    open_coder_client (server (codes "v2.14") 5) 3 []
    ≡ some (err (connect_error (some refused)), two_tries ++ cancel ∷ [])
open_coder_client_done_example =
    open_coder_client_done (server (codes "v2.14") 5) 2 0 [] (codes "v2.14") refl new_version
      (two_fail 5 (omega arith)) refl

open_coder_client-texts_example :
    texts (
      log_all
        (open_coder_logger (agent_client_v2 new_server))
        ((level_info, codes "pulling") ∷ (level_error, codes "denied") ∷ [])
        ((two_tries ++ connect_rpc ∷ []) ++ send_loop ∷ []))
    ≡ texts ((two_tries ++ connect_rpc ∷ []) ++ send_loop ∷ [])
      ++ outputs ((level_info, codes "pulling") ∷ (level_error, codes "denied") ∷ [])
open_coder_client-texts_example =
    open_coder_client-texts new_server 3 [] _ _
      ((level_info, codes "pulling") ∷ (level_error, codes "denied") ∷ [])
      open_coder_client_connected_run

send_v1_lem_example :
    (logs : List Log) × (send_v1 new_server level_info (codes "pulling") []
      ≡ (answered (codes "send build log") (some refused), patch_logs logs ∷ []))
    × (concat (map (λ l. l.output) logs) ≡ codes "pulling")
    × IsCut 1024 (map (λ l. l.output) logs)
    × OfLevel level_info logs
    × (7 ≤ length logs * 1024)
send_v1_lem_example = send_v1_lem new_server level_info (codes "pulling") []
