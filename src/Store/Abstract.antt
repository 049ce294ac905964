-- ===== src/Store/Abstract.antt =====
-- What the interface of the store promises, without its representation: two partial functions. A
-- Go map is a function from its keys; in what order it holds its entries is not seen.
use mev_boost.Common.{
  ℕ, String, Option, none, some, List, [], ◌∷◌, ◌==◌, if◌then◌else◌, bytes_eq, string_eq,
}
use mev_boost.Common.Map.{GoMap, lookup}
use mev_boost.Types.{Hash, ExecutionPayloadWithTxRootV1}
use mev_boost.Store.{
  Store, ExecutionPayloadContainer, ForkchoiceResponseContainer, is_expired, get_execution_payload,
  set_execution_payload, get_forkchoice_response, set_forkchoice_response, cleanup,
}
use mev_boost.Store.Cleanup.{unless}
pub mod Refines

-- The payload ids of the relays by their urls.
pub record Responses : Type 0 where
  pub ids : String → Option String
  pub added_at : ℕ

pub record Contents : Type 0 where
  pub payloads : Hash → Option ExecutionPayloadContainer
  pub forkchoices : String → Option Responses

-- The contents of a store.
abbrev pub responses_of : ForkchoiceResponseContainer → Responses
responses_of c = record { ids = λ url. lookup url c.payload; added_at = c.added_at }

abbrev pub map_option : {A B : Type 0} → (A → B) → Option A → Option B
map_option f none = none
map_option f (some a) = some (f a)

unfoldable pub contents : Store → Contents
contents s = record {
  payloads = λ k. lookup k s.payloads;
  forkchoices = λ id. map_option responses_of (lookup id s.forkchoices);
}

-- The calls of the interface, with the times at which they are made.
pub data Request : Type 0 where
  get_payload : Hash → Request
  set_payload : ℕ → Hash → Option ExecutionPayloadWithTxRootV1 → Request
  get_responses : String → Request
  set_response : ℕ → String → String → String → Request
  clean : ℕ → Request

-- What a call returns; of a map, what it has under each key.
pub data Returned : Type 0 where
  nothing : Returned
  payload : Option ExecutionPayloadWithTxRootV1 → Returned
  responses : Option (String → Option String) → Returned

-- The store of lib/store.go.
unfoldable pub serve : Request → Store → Store × Returned
serve (get_payload k) s = (s, payload (get_execution_payload k s))
serve (set_payload now k p) s = (set_execution_payload now k p s, nothing)
serve (get_responses id) s =
    (s, responses (map_option (λ m url. lookup url m) (get_forkchoice_response id s)))
serve (set_response now id url relay_id) s =
    (set_forkchoice_response now id url relay_id s, nothing)
serve (clean now) s = (cleanup now s, nothing)

-- The same calls of the contents.
abbrev pub update : {V : Type 0} → Hash → V → (Hash → Option V) → Hash → Option V
update k v f j = if k == j then some v else f j

abbrev pub with_response : ℕ → String → String → Option Responses → Responses
with_response now url relay_id none = record {
  ids = λ u. if url == u then some relay_id else none;
  added_at = now;
}
with_response now url relay_id (some c) = record c {
  ids = λ u. if url == u then some relay_id else c.ids u;
}

unfoldable pub specified : Request → Contents → Contents × Returned
specified (get_payload k) t =
    (t, payload (map_option (λ (c : ExecutionPayloadContainer). c.payload) (t.payloads k)))
specified (set_payload now k none) t = (t, nothing)
specified (set_payload now k (some p)) t =
    (record t { payloads = update k (record { payload = p; added_at = now }) t.payloads }, nothing)
specified (get_responses id) t =
    (t, responses (map_option (λ (c : Responses). c.ids) (t.forkchoices id)))
specified (set_response now id url relay_id) t = (
  record t {
    forkchoices = λ j.
        if id == j
        then some (with_response now url relay_id (t.forkchoices id))
        else t.forkchoices j;
  },
  nothing,
)
specified (clean now) t = (
  record {
    payloads =
        λ k. unless (λ (c : ExecutionPayloadContainer). is_expired now c.added_at) (t.payloads k);
    forkchoices = λ id. unless (λ (c : Responses). is_expired now c.added_at) (t.forkchoices id);
  },
  nothing,
)

-- A sequence of calls: the replies, and the state at the end.
module _ {S : Type 0} (answer : Request → S → S × Returned) where
  abbrev pub run : List Request → S → List Returned × S
  run [] s = ([], s)
  run (request ∷ requests) s =
      let (s', reply) = answer request s in
      let (replies, end) = run requests s' in (reply ∷ replies, end)
