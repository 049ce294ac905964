-- ===== src/Store/References.antt =====
-- lib/store.go with references: the map of the responses inside a container is a reference, which
-- GetForkchoiceResponse hands out and SetForkchoiceResponse writes through.
use mev_boost.Common.{
  ℕ, suc, ◌<◌, ◌≡◌, ◌≢◌, String, Option, none, some, List, [], ◌∷◌, All, if◌then◌else◌, ◌==◌,
  nat_eq, bytes_eq, string_eq,
}
use mev_boost.Common.Map.{GoMap, lookup, insert, keys}
use mev_boost.Types.{Hash}
use mev_boost.Store.{
  Store, ExecutionPayloadContainer, ForkchoiceResponseContainer, get_execution_payload,
  set_execution_payload, is_expired, cleanup_loop,
}
use mev_boost.Store.Abstract.{
  Request, get_payload, set_payload, get_responses, set_response, clean, Returned, nothing, payload,
  responses, map_option,
}
pub mod Values
pub mod Owners
pub mod View
pub mod Refines
pub mod HandedOut
pub mod Tests

-- forkchoiceResponseContainer, with the reference to its map.
pub record ResponsesRef : Type 0 where
  pub payload : ℕ
  pub added_at : ℕ

-- The store, with the maps in memory and the number of them that were made.
pub record RefStore : Type 0 where
  pub payloads : GoMap Hash ExecutionPayloadContainer
  pub forkchoices : GoMap String ResponsesRef
  pub maps : ℕ → GoMap String String
  pub made : ℕ

abbrev pub new_ref_store : RefStore
new_ref_store = record { payloads = []; forkchoices = []; maps = λ r. []; made = 0 }

abbrev pub assign : ℕ → GoMap String String → (ℕ → GoMap String String) → ℕ → GoMap String String
assign r m maps q = if r == q then m else maps q

-- The reference that GetForkchoiceResponse returns.
pub get_response_map : String → RefStore → Option ℕ
get_response_map id s = map_option (λ c. c.payload) (lookup id s.forkchoices)

pub make_response_map : ℕ → String → RefStore → RefStore
make_response_map now id s = elim (lookup id s.forkchoices) [
  | none ↦ record s {
    forkchoices = insert id (record { payload = s.made; added_at = now }) s.forkchoices;
    maps = assign s.made [] s.maps;
    made = suc s.made;
  }
  | some c ↦ s
]

-- A write through the reference of a container; without one it would panic, and there is one.
pub write_response_map : String → String → String → RefStore → RefStore
write_response_map id url rid s = elim (lookup id s.forkchoices) [
  | none ↦ s
  | some c ↦ record s { maps = assign c.payload (insert url rid (s.maps c.payload)) s.maps }
]

pub set_response_map : ℕ → String → String → String → RefStore → RefStore
set_response_map now id url rid s = write_response_map id url rid (make_response_map now id s)

abbrev pub payloads_store : RefStore → Store
payloads_store s = record { payloads = s.payloads; forkchoices = [] }

-- A call, with what it returns: of a map, what it has under each key when the call returns.
pub serve_refs : Request → RefStore → RefStore × Returned
serve_refs (get_payload k) s = (s, payload (get_execution_payload k (payloads_store s)))
serve_refs (set_payload now k p) s =
    (record s { payloads = (set_execution_payload now k p (payloads_store s)).payloads }, nothing)
serve_refs (get_responses id) s =
    (s, responses (map_option (λ r url. lookup url (s.maps r)) (get_response_map id s)))
serve_refs (set_response now id url rid) s = (set_response_map now id url rid s, nothing)
serve_refs (clean now) s = (
  record s {
    payloads = cleanup_loop (λ c. is_expired now c.added_at) (keys s.payloads) s.payloads;
    forkchoices = cleanup_loop (λ c. is_expired now c.added_at) (keys s.forkchoices) s.forkchoices;
  },
  nothing,
)

-- The container that a reference stands for, and the store of the containers.
abbrev pub container_of : (ℕ → GoMap String String) → ResponsesRef → ForkchoiceResponseContainer
container_of maps c = record { payload = maps c.payload; added_at = c.added_at }
