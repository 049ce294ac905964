-- ===== src/Service/Tests/Forkchoice.antt =====
-- Runs of `ForkchoiceUpdatedV1`.
use mev_boost.Common.{
  ◌≡◌, ◌⊎◌, false, refl, String, none, some, [], ◌∷◌, ◌==◌, string_eq, bytes_eq, if◌then◌else◌,
}
use mev_boost.Common.Map.{contains}
use mev_boost.Types.{
  forkchoice_status_invalid, forkchoice_status_valid, forkchoice_status_accepted,
  forkchoice_status_syncing, forkchoice_status_invalid_block_hash,
  forkchoice_status_invalid_terminal_block, Bytes, Hash, ForkChoiceResponse,
}
use mev_boost.Rpc.{Reply, make_request, parse_rpc_response}
use mev_boost.Store.{Store, new_store}
use mev_boost.Store.Interface.{relay_payload_id}
use mev_boost.Store.InMemory.{in_memory, in_memory_laws}
use mev_boost.Service.{returned, panicked, no_valid_relay_response}
use mev_boost.Service.Forkchoice.{forkchoice_updated_v1, compiled, status_ok}
use mev_boost.Service.Forkchoice.Accepted.{IsNil}
use mev_boost.Service.Forkchoice.Stores.{
  reply_of, Gives, IsStored, forkchoice_updated_v1-stores, forkchoice_updated_v1-panicked,
}
use mev_boost.Service.Tests.{
  Text, forkchoice_text, env, pick, http_of, reply_with, nil_reply, relays, swap_two, swap_two-Perm,
}

-- The first relay has no valid status, the second one gives a payload id.
unfoldable pub forkchoice_answer : String → Reply Text
forkchoice_answer url = reply_with (
    forkchoice_text (record {
      payload_status = record {
        status = if url == "a" then forkchoice_status_invalid else forkchoice_status_valid;
        latest_valid_hash = "";
        validation_error = "";
      };
      payload_id = some (9 ∷ []);
    }))

abbrev pub no_result : ForkChoiceResponse
no_result = record {
  payload_status = record { status = ""; latest_valid_hash = ""; validation_error = "" };
  payload_id = none;
}

-- Both relays reply.
answers_calm : (url : String) → ¬ IsNil (reply_of (http_of forkchoice_answer) env [] relays url)
unfolding make_request parse_rpc_response forkchoice_answer pick
answers_calm url (no_failure, no_response) = cc no_response

forkchoice_updated_v1-stores_example :
    (s' : Store) × ((((url : String) × (relay_id : Bytes) × Gives
            (http_of forkchoice_answer)
            env
            []
            relays
            url
            relay_id)
        × (forkchoice_updated_v1
              (http_of forkchoice_answer)
              env
              in_memory
              (λ url. 0)
              relays
              swap_two
              (some (7 ∷ []))
              []
              no_result
              new_store
            ≡ returned (s', compiled (7 ∷ []), none)))
      ⊎ ((¬ (
            (url : String) × (relay_id : Bytes) × Gives
              (http_of forkchoice_answer)
              env
              []
              relays
              url
              relay_id))
          × (forkchoice_updated_v1
                (http_of forkchoice_answer)
                env
                in_memory
                (λ url. 0)
                relays
                swap_two
                (some (7 ∷ []))
                []
                no_result
                new_store
              ≡ returned (s', no_result, some no_valid_relay_response))))
    × ((id url : String)
        → ((relay_id : Bytes) × IsStored
              (http_of forkchoice_answer)
              env
              []
              relays
              (7 ∷ [])
              id
              url
              relay_id
            × (relay_payload_id in_memory id url s' ≡ some (env.bytes_string relay_id)))
          ⊎ ((¬ (
                (relay_id : Bytes) × IsStored
                  (http_of forkchoice_answer)
                  env
                  []
                  relays
                  (7 ∷ [])
                  id
                  url
                  relay_id))
              × (relay_payload_id in_memory id url s'
                  ≡ relay_payload_id in_memory id url new_store)))
    × ((k : Hash)
        → in_memory.get_execution_payload k s' ≡ in_memory.get_execution_payload k new_store)
forkchoice_updated_v1-stores_example =
    forkchoice_updated_v1-stores (http_of forkchoice_answer) env [] relays in_memory (λ url. 0)
      swap_two (7 ∷ []) no_result new_store in_memory_laws (swap_two-Perm _)
      (λ url has. answers_calm url)

null_answers : IsNil (reply_of (http_of (λ url. nil_reply)) env [] relays "b")
unfolding make_request parse_rpc_response pick
null_answers = (refl, refl)

forkchoice_updated_v1-panicked_example :
    forkchoice_updated_v1
      (http_of (λ url. nil_reply))
      env
      in_memory
      (λ url. 0)
      relays
      swap_two
      (some (7 ∷ []))
      []
      no_result
      new_store
    ≡ panicked
unfolding contains
forkchoice_updated_v1-panicked_example =
    forkchoice_updated_v1-panicked (http_of (λ url. nil_reply)) env [] relays in_memory (λ url. 0)
      swap_two (7 ∷ []) no_result new_store "b" (swap_two-Perm _) refl null_answers

-- None of the other statuses of the specification passes.
other_statuses :
    (status_ok forkchoice_status_invalid ≡ false)
    × (status_ok forkchoice_status_accepted ≡ false)
    × (status_ok forkchoice_status_syncing ≡ false)
    × (status_ok forkchoice_status_invalid_block_hash ≡ false)
    × (status_ok forkchoice_status_invalid_terminal_block ≡ false)
unfolding status_ok
other_statuses = (refl, refl, refl, refl, refl)
