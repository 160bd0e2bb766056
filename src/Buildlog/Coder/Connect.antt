-- ===== src/Buildlog/Coder/Connect.antt =====
-- When `OpenCoderClient` of buildlog/coder.go returns, and with which client.
use envbox.Prelude.{
  ℕ, zero, suc, ◌+◌, ◌<◌, ◌≡◌, refl, ap, ◌∙◌, true, false, List, [], ◌∷◌, ◌++◌, Option, none, some,
  Bytes, codes, Error, ok, err, arith,
}
use envbox.Buildlog.Coder.{
  Call, build_info, connect_rpc, send_loop, log_error, cancel, Api, agent_client_v2, connect_error,
  connect_loop, new_agent_client_v2, open_coder_client,
}

-- The calls behind `n` failed tries.
abbrev pub tries : List Call → ℕ → List Call
tries t zero = t
tries t (suc n) = tries (t ++ connect_rpc ∷ log_error (codes "connect err") ∷ []) n

module _ (api : Api) where
  -- A try is made behind the calls, and fails.
  abbrev pub Fails : List Call → Type 0
  Fails t = (api.wait t ≡ true) × ((e : Error) × (api.connect_rpc t ≡ some e))

  -- The error of the last of `n` tries, or the one before them.
  abbrev pub last_error : Option Error → List Call → ℕ → Option Error
  last_error last t zero = last
  last_error last t (suc n) =
      last_error (api.connect_rpc t) (t ++ connect_rpc ∷ log_error (codes "connect err") ∷ []) n

  connect_loop-tries :
      (n fuel : ℕ) (last : Option Error) (t : List Call)
      → ((j : ℕ) → j < n → Fails (tries t j))
      → connect_loop api (n + fuel) last t ≡ connect_loop api fuel (last_error last t n) (tries t n)
  unfolding connect_loop
  connect_loop-tries zero fuel last t fails = ap (λ m. connect_loop api m last t) (omega arith)
  connect_loop-tries (suc n) fuel last t fails =
      let (waited, (e, failed)) = fails 0 (omega arith) in
      let more : suc n + fuel ≡ suc (n + fuel) = omega arith in
      let made = t ++ connect_rpc ∷ log_error (codes "connect err") ∷ [] in
      ap (λ m. connect_loop api m last t) more
      ∙ rw (connect_loop, waited, failed)
          (connect_loop-tries n fuel (some e) made (λ j lt. fails (suc j) (omega arith)))

  -- A server of version 2.13 or later: the client is that of the connection.
  opened_new :
      (fuel : ℕ) (t : List Call) (version : Bytes)
      → api.build_info t ≡ ok version
      → api.is_below (api.major_minor version) (codes "v2.13") ≡ false
      → open_coder_client api fuel t ≡ new_agent_client_v2 api fuel (t ++ build_info ∷ [])
  unfolding open_coder_client
  opened_new fuel t version told new = rw (open_coder_client, told, new) refl

-- For a server of version 2.13 or later, `OpenCoderClient` tries to connect until it can. Behind `n` failed
-- tries, if the next one connects, it returns the second client and has started its loop of sending.
pub open_coder_client_connected :
    (api : Api) (n fuel : ℕ) (t : List Call) (version : Bytes)
    → api.build_info t ≡ ok version
    → api.is_below (api.major_minor version) (codes "v2.13") ≡ false
    → ((j : ℕ) → j < n → Fails api (tries (t ++ build_info ∷ []) j))
    → api.wait (tries (t ++ build_info ∷ []) n) ≡ true
    → api.connect_rpc (tries (t ++ build_info ∷ []) n) ≡ none
    → open_coder_client api (n + suc fuel) t
      ≡ some (
        ok (agent_client_v2 api),
        (tries (t ++ build_info ∷ []) n ++ connect_rpc ∷ []) ++ send_loop ∷ [],
      )
unfolding connect_loop new_agent_client_v2
open_coder_client_connected api n fuel t version told new fails waited connected =
    let made = t ++ build_info ∷ [] in
    let loop = connect_loop-tries api n (suc fuel) none made fails in
    opened_new api (n + suc fuel) t version told new
    ∙ rw (new_agent_client_v2, loop, waited, connected) refl

-- For a server of version 2.13 or later, if the context is done behind `n` failed tries, `OpenCoderClient`
-- cancels its own context and returns an error with that of the last try, where there was one.
pub open_coder_client_done :
    (api : Api) (n fuel : ℕ) (t : List Call) (version : Bytes)
    → api.build_info t ≡ ok version
    → api.is_below (api.major_minor version) (codes "v2.13") ≡ false
    → ((j : ℕ) → j < n → Fails api (tries (t ++ build_info ∷ []) j))
    → api.wait (tries (t ++ build_info ∷ []) n) ≡ false
    → open_coder_client api (n + suc fuel) t
      ≡ some (
        err (connect_error (last_error api none (t ++ build_info ∷ []) n)),
        tries (t ++ build_info ∷ []) n ++ cancel ∷ [],
      )
unfolding connect_loop new_agent_client_v2
open_coder_client_done api n fuel t version told new fails waited =
    let made = t ++ build_info ∷ [] in
    let loop = connect_loop-tries api n (suc fuel) none made fails in
    opened_new api (n + suc fuel) t version told new ∙ rw (new_agent_client_v2, loop, waited) refl
