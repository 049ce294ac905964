-- ===== src/Store/Tests.antt =====
-- Runs of the store at concrete inputs.
use mev_boost.Common.{
  ◌+◌, ◌*◌, ◌≤◌, ◌≡◌, refl, ◌↔◌, some, List, [], ◌∷◌, replicate, arith, bytes_eq, string_eq,
}
use mev_boost.Common.Map.{lookup, insert}
use mev_boost.Types.{Hash, ExecutionPayloadWithTxRootV1, zero_payload}
use mev_boost.Store.{
  Store, ExecutionPayloadContainer, ForkchoiceResponseContainer, second, new_store, cleanup,
  get_execution_payload, set_execution_payload, set_forkchoice_response,
}
use mev_boost.Store.Cleanup.{cleanup_exact}
use mev_boost.Store.Available.{payload_available}
use mev_boost.Store.Run.{System, Step, Reach, new_store_with_cleanup, retention}
use mev_boost.Store.Abstract
use mev_boost.Store.Abstract.{Request, contents, specified}
use mev_boost.Store.Abstract.Refines.{observed, observed-specified}

abbrev block_hash : Hash
block_hash = replicate 32 1

abbrev payload : ExecutionPayloadWithTxRootV1
payload = record zero_payload { block_hash = block_hash }

abbrev container : ExecutionPayloadContainer
container = record { payload = payload; added_at = 100 * second }

abbrev responses : ForkchoiceResponseContainer
responses = record { payload = ("relay", "0x01") ∷ []; added_at = 100 * second }

-- A store with one payload and one response, both of the time 100 s.
abbrev filled : Store
filled = record { payloads = (block_hash, container) ∷ []; forkchoices = ("0xff", responses) ∷ [] }

cleanup_exact_example :
    ((lookup block_hash (cleanup (868 * second) filled).payloads ≡ some container) ↔ (
      (lookup block_hash filled.payloads ≡ some container)
      × (868 * second ≤ container.added_at + 768 * second)))
    × ((lookup "0xff" (cleanup (868 * second) filled).forkchoices ≡ some responses) ↔ (
        (lookup "0xff" filled.forkchoices ≡ some responses)
        × (868 * second ≤ responses.added_at + 768 * second)))
cleanup_exact_example = cleanup_exact (868 * second) filled block_hash container "0xff" responses

-- The payload and the response are set at once, and 300 s pass.
abbrev written : System
written = record {
  store =
      set_forkchoice_response 0 "0xff" "relay" "0x01"
        (set_execution_payload 0 block_hash (some payload) new_store);
  clock = 0;
  wake = 300 * second;
}

abbrev waited : System
waited = record written { clock = 300 * second }

run : Reach (new_store_with_cleanup 0) waited
run =
    Reach.next
      (Reach.next (Reach.next Reach.here (Step.set_payload block_hash (some payload)))
        (Step.set_response "0xff" "relay" "0x01"))
      (Step.pass (300 * second) (omega arith))

retention_example :
    ((0 ≤ 300 * second) × (300 * second ≤ 0 + 1068 * second))
    × ((0 ≤ 300 * second) × (300 * second ≤ 0 + 1068 * second))
unfolding lookup insert set_execution_payload set_forkchoice_response
retention_example = retention 0 waited block_hash "0xff" run

-- A cleanup after 300 s, and 300 s more.
abbrev early : System
early = record (new_store_with_cleanup 0) {
  store = set_execution_payload 0 block_hash (some payload) new_store;
}

abbrev later : System
later = record {
  store = cleanup (300 * second) early.store;
  clock = 600 * second;
  wake = 600 * second;
}

cleaned : Reach early later
cleaned =
    Reach.next
      (Reach.next (Reach.next Reach.here (Step.pass (300 * second) (omega arith)))
        (Step.wake_up refl))
      (Step.pass (300 * second) (omega arith))

payload_available_example :
    (c : ExecutionPayloadContainer) × (lookup block_hash later.store.payloads ≡ some c)
    × (0 ≤ c.added_at)
    × (get_execution_payload block_hash later.store ≡ some c.payload)
payload_available_example =
    payload_available (new_store_with_cleanup 0) later block_hash payload cleaned (omega arith)

-- Two responses, in the two orders in which their goroutines may write them.
abbrev one_order : Store
one_order = set_forkchoice_response 0 "7" "b" "2" (set_forkchoice_response 0 "7" "a" "1" new_store)

abbrev other_order : Store
other_order =
    set_forkchoice_response 0 "7" "a" "1" (set_forkchoice_response 0 "7" "b" "2" new_store)

abbrev requests : List Request
requests = Request.get_responses "7" ∷ Request.clean (800 * second) ∷ Request.get_responses "7" ∷ []

observed-specified_example :
    observed requests one_order ≡ Abstract.run specified requests (contents one_order)
observed-specified_example = observed-specified requests one_order
