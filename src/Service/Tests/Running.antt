-- ===== src/Service/Tests/Running.antt =====
-- Runs of the running service: the handlers' runs, and what follows in the states that they reach.
use mathlib.Core.List.{Memᴰ}
use mev_boost.Common.{
  ◌≡◌, refl, ◌⊎◌, String, ℕ, List, none, some, true, [], ◌∷◌, replicate, string_eq,
}
use mev_boost.Common.Map.{lookup, insert, contains}
use mev_boost.Types.{Hash, ExecutionPayloadWithTxRootV1}
use mev_boost.Rpc.{make_request, parse_rpc_response}
use mev_boost.Store.{
  Store, new_store, set_forkchoice_response, get_execution_payload, set_execution_payload,
}
use mev_boost.Store.InMemory.{in_memory, in_memory_laws}
use mev_boost.Service.{returned}
use mev_boost.Service.Forkchoice.{
  compiled, forkchoice_updated_v1, goroutines, goroutine, reply_id, response_id, status_ok,
}
use mev_boost.Service.Propose.{body_block_hash}
use mev_boost.Service.{rand_failed}
use mev_boost.Service.System.{
  refused, forkchoice_without_id, System, answered, forkchoice_answered, best_header, revealed,
  Reach, here, next, arrives, cleans_responses, proposal_begins, start_proposal,
}
use mev_boost.Service.System.Authentic.{stored-Authentic, revealed-Authentic}
use mev_boost.Service.System.Authentic.Invariant.{Authentic}
use mev_boost.Service.System.Frozen.{answered_id-Kept}
use mev_boost.Service.System.Retained.{still, begins, proposal-revealed}
use mev_boost.Service.System.Handlers.{forkchoice_updated_v1-Reach, get_payload_header_v1-Reach}
use mev_boost.Service.Tests.{
  env, pick, http_of, relays, swap_two, swap_two-Perm, forkchoice_of, body_of,
}
use mev_boost.Service.Tests.Forkchoice.{forkchoice_answer, no_result}
use mev_boost.Service.Tests.Header.{sample_answer, asked_store}
use mev_boost.Service.Tests.Propose.{
  message, body, block, stored, header, stored_state, header-returned,
}

abbrev begun : System Store
begun = record { store = asked_store; calls = [] }

abbrev with_header : System Store
with_header = record { store = stored_state; calls = answered (best_header header) ∷ [] }

header_run : Reach String String env in_memory relays begun with_header
header_run =
    get_payload_header_v1-Reach (http_of sample_answer) env in_memory relays asked_store []
      stored_state (λ url. 0) swap_two "0x07" header none (λ responses. swap_two-Perm responses)
      header-returned

no_payloads : (k : Hash) → get_execution_payload k asked_store ≡ none
unfolding asked_store set_forkchoice_response get_execution_payload lookup
no_payloads k = refl

stored-Authentic_example : Authentic env (replicate 32 1) stored
unfolding get_execution_payload set_execution_payload asked_store set_forkchoice_response lookup
    insert
stored-Authentic_example =
    stored-Authentic env in_memory relays asked_store with_header in_memory_laws no_payloads
      header_run (replicate 32 1) stored refl

-- The proposal that follows is answered from the store.
abbrev with_payload : System Store
with_payload = record {
  store = stored_state;
  calls = answered (revealed (replicate 32 1) stored) ∷ answered (best_header header) ∷ [];
}

proposed :
    start_proposal env in_memory (some block) stored_state
    ≡ answered (revealed (replicate 32 1) stored)
unfolding start_proposal body_of body_block_hash asked_store set_forkchoice_response
    get_execution_payload set_execution_payload lookup insert
proposed = refl

with_payload-Reach : Reach String String env in_memory relays begun with_payload
with_payload-Reach = rw proposed at (next header_run (arrives _ (proposal_begins (some block))))

revealed-Authentic_example : Authentic env (replicate 32 1) stored
revealed-Authentic_example =
    revealed-Authentic env in_memory relays asked_store with_payload in_memory_laws no_payloads
      with_payload-Reach (replicate 32 1) stored (Memᴰ.head refl)

-- A call of `ForkchoiceUpdatedV1` whose second relay answers first.
abbrev empty : System Store
empty = record { store = new_store; calls = [] }

abbrev asked_state : Store
asked_state = set_forkchoice_response 0 "0x07" "b" "0x09" new_store

abbrev with_id : System Store
with_id = record { store = asked_state; calls = forkchoice_answered (7 ∷ []) true [] ∷ [] }

forkchoice_updated_v1-returned :
    forkchoice_updated_v1
      (http_of forkchoice_answer)
      env
      in_memory
      (λ url. 0)
      relays
      swap_two
      (some (7 ∷ []))
      []
      no_result
      new_store
    ≡ returned (asked_state, compiled (7 ∷ []), none)
unfolding forkchoice_updated_v1 goroutines goroutine reply_id response_id status_ok make_request
    parse_rpc_response forkchoice_answer pick forkchoice_of swap_two
forkchoice_updated_v1-returned = refl

forkchoice_run : Reach String String env in_memory relays empty with_id
unfolding contains
forkchoice_run =
    forkchoice_updated_v1-Reach (http_of forkchoice_answer) env in_memory relays new_store []
      asked_state (λ url. 0) swap_two (7 ∷ []) [] no_result (compiled (7 ∷ [])) none
      (swap_two-Perm _) refl forkchoice_updated_v1-returned

abbrev late : List (String × ℕ)
late = ("0x07", 9) ∷ []

answered_id-Kept_example :
    (◌≡◌ {A = List String} [] [])
    × ((in_memory.get_forkchoice_response "0x07" (in_memory.cleanup_responses late asked_state)
          ≡ none)
        ⊎ (in_memory.get_forkchoice_response "0x07" (in_memory.cleanup_responses late asked_state)
            ≡ in_memory.get_forkchoice_response "0x07" asked_state))
answered_id-Kept_example =
    answered_id-Kept env in_memory relays empty with_id
      (record with_id { store = in_memory.cleanup_responses late asked_state }) (7 ∷ []) []
      in_memory_laws refl forkchoice_run (Memᴰ.head refl) (next here (cleans_responses late))

-- Between the header and the proposal another call of `ForkchoiceUpdatedV1` fails to get an id.
abbrev busy : System Store
busy = record with_header { calls = answered (refused rand_failed) ∷ with_header.calls }

stored_found : get_execution_payload (replicate 32 1) stored_state ≡ some stored
unfolding get_execution_payload set_execution_payload asked_store set_forkchoice_response lookup
    insert
stored_found = refl

proposal-revealed_example :
    (q : ExecutionPayloadWithTxRootV1) × (start_proposal env in_memory (some block) stored_state
      ≡ answered (revealed (replicate 32 1) q))
    × Authentic env (replicate 32 1) q
unfolding body_of body_block_hash
proposal-revealed_example =
    proposal-revealed env in_memory relays asked_store with_header busy block message body stored
      in_memory_laws no_payloads header_run stored_found (begins still _ forkchoice_without_id) refl
      refl
