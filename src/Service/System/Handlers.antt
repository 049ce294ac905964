-- ===== src/Service/System/Handlers.antt =====
-- `ForkchoiceUpdatedV1` and `GetPayloadHeaderV1` as runs of the running service, in which no other
-- call moves from their beginning to their answer.
pub mod Steps
use mathlib.Core.Path.{subst}
use mathlib.Core.List.{Perm, Permᴰ}
use mathlib.Core.List.Perm
use mev_boost.Common.{
  ℕ, ◌≡◌, refl, sym, ap, ◌∙◌, ◌⊎◌, inl, inr, String, Option, none, some, List, [], ◌∷◌, map, Bool,
  true, false, ◌==◌, bytes_eq, string_eq, length, arith, Option-cases, Bool-cases, if◌then◌else◌,
}
use mev_boost.Common.Map.{contains}
use mev_boost.Common.Orders.{length-perm, length-map}
use mev_boost.Types.{
  Bytes, ExecutionPayloadWithTxRootV1, zero_payload, nil_hash, ForkChoiceResponse,
  SignedBlindedBeaconBlock,
}
use mev_boost.Rpc.{Http, Param, Reply, make_request}
use mev_boost.Store.Interface.{StoreOps}
use mev_boost.Service.{
  Env, Outcome, returned, panicked, ◌>>=◌, HandlerError, RelayService, no_valid_relay_response,
  bad_payload_id, no_forkchoice_responses, no_valid_header, nil_block, bad_body,
}
use mev_boost.Service.Forkchoice.{goroutine, goroutines, forkchoice_updated_v1}
use mev_boost.Service.Header.{process_reply, process_replies, ask, get_payload_header_v1}
use mev_boost.Service.Propose.{body_block_hash, await_replies, method, propose_blinded_block_v1}
use mev_boost.Service.System.{
  System, Call, forkchoice, header, proposal, answered, Answer, forkchoice_answered, best_header,
  revealed, relayed, refused, ids_of, Move, goroutine_runs, forkchoice_succeeds, forkchoice_fails,
  reply_comes, header_succeeds, header_fails, relays_answer, relays_refuse, first, arrives, moves,
  Reach, here, next, forkchoice_begins, header_begins, proposal_begins, start_header,
  start_proposal,
}
use mev_boost.Service.System.Handlers.Steps.{
  Outcome-cases, unless_error, succeeds, young, goroutines_run, replies_Reach,
}

module _ {Request Response Raw S : Type 0} (http : Http Raw Request Response) (env : Env Raw)
    (ops : StoreOps S) (m : RelayService) (s : S) (calls : List Call) where
  pub forkchoice_updated_v1-Reach :
      (s' : S) (now : String → ℕ) (order : List String → List String) (id : Bytes)
      (args : List (Param Raw)) (result r : ForkChoiceResponse) (e : Option HandlerError)
      → Perm (order m.relay_urls) m.relay_urls
      → contains (env.bytes_string id) (ids_of env.bytes_string calls) ≡ false
      → forkchoice_updated_v1 http env ops now m order (some id) args result s ≡ returned (s', r, e)
      → Reach Request Response env ops m
          (record { store = s; calls = calls })
          (record { store = s'; calls = forkchoice_answered id (succeeds e) [] ∷ calls })
  unfolding forkchoice_updated_v1
  forkchoice_updated_v1-Reach s' now order id args result r e perm fresh returns =
      let begun : Reach Request Response env ops m (record { store = s; calls = calls })
          (record {
            store = s;
            calls = forkchoice id (length m.relay_urls) m.relay_urls false ∷ calls;
          }) =
        next here (arrives _ (forkchoice_begins id fresh)) in
      elim (Outcome-cases
        (goroutines http env ops now (env.bytes_string id) args (order m.relay_urls) (s, false))) [
          | inl crash ↦ absurd (cc (rw crash at returns))
          | inr ((s₁, valid), ran) ↦
              let run =
                goroutines_run http env ops m now id args {calls = calls} m.relay_urls
                  (order m.relay_urls) s s₁ false valid (Perm.symm perm) ran
                  (rw (sym (length-perm perm)) at begun) in
              let after = rw ran at returns in
              elim (Bool-cases valid) [
                | inl good ↦
                    let same : s₁ ≡ s' = cc (rw good at after) in
                    let no_error : e ≡ none = cc (rw good at after) in
                    rw (no_error, ← same)
                      (young http env ops m (rw good at run) forkchoice_succeeds)
                | inr bad ↦
                    let same : s₁ ≡ s' = cc (rw bad at after) in
                    let error : e ≡ some no_valid_relay_response = cc (rw bad at after) in
                    rw (error, ← same) (young http env ops m (rw bad at run) forkchoice_fails)
              ]
        ]

  pub get_payload_header_v1-Reach :
      (s' : S) (now : String → ℕ) (order : List (String × String) → List (String × String))
      (args : String) (r : ExecutionPayloadWithTxRootV1) (e : Option HandlerError)
      → ((responses : List (String × String)) → Perm (order responses) responses)
      → get_payload_header_v1 http env ops now order args zero_payload s ≡ returned (s', r, e)
      → Reach Request Response env ops m
          (record { store = s; calls = calls })
          (record { store = s'; calls = answered (unless_error e (best_header r)) ∷ calls })
  unfolding get_payload_header_v1 start_header
  get_payload_header_v1-Reach s' now order args r e perm returns =
      let begun : Reach Request Response env ops m (record { store = s; calls = calls })
          (record { store = s; calls = start_header env ops args s ∷ calls }) =
        next here (arrives _ (header_begins args)) in
      elim (Option-cases (env.unmarshal_text args)) [
        | inl bad ↦
            let after = rw (bad, get_payload_header_v1) at returns in
            let same : s ≡ s' = cc after in
            let error : e ≡ some bad_payload_id = cc after in
            rw (error, ← same) (rw (bad, start_header) at begun)
        | inr (id, text) ↦
            elim (Option-cases (ops.get_forkchoice_response (env.bytes_string id) s)) [
              | inl absent ↦
                  let after = rw absent at (rw (text, get_payload_header_v1) at returns) in
                  let same : s ≡ s' = cc after in
                  let error : e ≡ some (no_forkchoice_responses (env.bytes_string id)) = cc after in
                  rw (error, ← same) (rw absent at (rw (text, start_header) at begun))
              | inr (responses, found) ↦
                  replies_Reach http env ops m now (env.bytes_string id) order responses s s' r e
                    (perm responses) (rw found at (rw (text, get_payload_header_v1) at returns))
                    (rw found at (rw (text, start_header) at begun))
            ]
      ]
