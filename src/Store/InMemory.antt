-- ===== src/Store/InMemory.antt =====
-- The in-memory store meets the interface that the service relies on.
use mev_boost.Common.{
  ℕ, String, ◌≡◌, ◌⊎◌, false, refl, Option, none, some, List, ◌==◌, ◌&&◌, if◌then◌else◌, arith,
  bytes_eq, string_eq,
}
use mev_boost.Common.Map.{lookup, insert, lookup-insert}
use mev_boost.Types.{Hash, ExecutionPayloadWithTxRootV1}
use mev_boost.Store.{
  Store, ForkchoiceResponseContainer, container_or_new, get_execution_payload,
  set_execution_payload, get_forkchoice_response, set_forkchoice_response, cleanup_payloads,
  cleanup_responses,
}
use mev_boost.Store.Cleanup.{lookup-sweep}
use mev_boost.Store.Interface.{StoreOps, StoreLaws, relay_payload_id}
use text.Mathlib.TextEquality.{eq_iff}

abbrev pub in_memory : StoreOps Store
in_memory = record {
  get_execution_payload = get_execution_payload;
  set_execution_payload = set_execution_payload;
  set_forkchoice_response = set_forkchoice_response;
  get_forkchoice_response = get_forkchoice_response;
  cleanup_payloads = cleanup_payloads;
  cleanup_responses = cleanup_responses;
}

get-set_payload :
    (now : ℕ) (k j : Hash) (p : ExecutionPayloadWithTxRootV1) (s : Store)
    → get_execution_payload j (set_execution_payload now k (some p) s)
      ≡ (if k == j then some p else get_execution_payload j s)
unfolding get_execution_payload set_execution_payload
get-set_payload now k j p s =
    ground (arith, lookup-insert k j (record { payload = p; added_at = now }) s.payloads)

id-set_response :
    (now : ℕ) (id url rid : String) (id' url' : String) (s : Store)
    → relay_payload_id in_memory id' url' (set_forkchoice_response now id url rid s)
      ≡ (if id == id' && url == url' then some rid else relay_payload_id in_memory id' url' s)
unfolding get_forkchoice_response set_forkchoice_response lookup
id-set_response now id url rid id' url' s =
    let c = container_or_new now (lookup id s.forkchoices) in
    let c' : ForkchoiceResponseContainer = record c { payload = insert url rid c.payload } in
    ground (
      arith,
      lookup-insert id id' c' s.forkchoices,
      lookup-insert url url' rid c.payload,
      eq_iff id id',
      eq_iff url url',
    )

responses-set_payload :
    (now : ℕ) (k : Hash) (p : Option ExecutionPayloadWithTxRootV1) (id : String) (s : Store)
    → get_forkchoice_response id (set_execution_payload now k p s) ≡ get_forkchoice_response id s
unfolding get_forkchoice_response set_execution_payload
responses-set_payload now k none id s = refl
responses-set_payload now k (some p) id s = refl

payload-set_response :
    (now : ℕ) (id url rid : String) (k : Hash) (s : Store)
    → get_execution_payload k (set_forkchoice_response now id url rid s) ≡ get_execution_payload k s
unfolding get_execution_payload set_forkchoice_response
payload-set_response now id url rid k s = refl

responses-set_other :
    (now : ℕ) (id url rid id' : String) (s : Store)
    → (id == id') ≡ false
    → get_forkchoice_response id' (set_forkchoice_response now id url rid s)
      ≡ get_forkchoice_response id' s
unfolding get_forkchoice_response set_forkchoice_response
responses-set_other now id url rid id' s other =
    let c = container_or_new now (lookup id s.forkchoices) in
    let c' : ForkchoiceResponseContainer = record c { payload = insert url rid c.payload } in
    ground (arith, lookup-insert id id' c' s.forkchoices, other)

payload-cleanup_payloads :
    (visits : List (Hash × ℕ)) (k : Hash) (s : Store)
    → (get_execution_payload k (cleanup_payloads visits s) ≡ none)
      ⊎ (get_execution_payload k (cleanup_payloads visits s) ≡ get_execution_payload k s)
unfolding get_execution_payload cleanup_payloads
payload-cleanup_payloads visits k s =
    ground (arith, lookup-sweep (λ c. c.added_at) visits k s.payloads)

responses-cleanup_responses :
    (visits : List (String × ℕ)) (id : String) (s : Store)
    → (get_forkchoice_response id (cleanup_responses visits s) ≡ none)
      ⊎ (get_forkchoice_response id (cleanup_responses visits s) ≡ get_forkchoice_response id s)
unfolding get_forkchoice_response cleanup_responses
responses-cleanup_responses visits id s =
    ground (arith, lookup-sweep (λ c. c.added_at) visits id s.forkchoices)

-- The in-memory store keeps every law of the interface: a payload or a relay's payload id that was
-- set is read back under its key and under no other, a nil payload is not stored, the two maps do
-- not disturb one another, a write under one boost payload id leaves the responses of every other
-- one, and the two parts of a cleanup remove entries whole, each from its map, and
-- change none.
pub in_memory_laws : StoreLaws in_memory
unfolding set_execution_payload get_execution_payload get_forkchoice_response cleanup_payloads
    cleanup_responses
in_memory_laws = record {
  get-set_payload = get-set_payload;
  set_nil_payload = λ now k s. refl;
  id-set_response = id-set_response;
  payload-set_response = payload-set_response;
  responses-set_payload = responses-set_payload;
  responses-set_other = responses-set_other;
  payload-cleanup_payloads = payload-cleanup_payloads;
  payload-cleanup_responses = λ visits k s. refl;
  responses-cleanup_responses = responses-cleanup_responses;
  responses-cleanup_payloads = λ visits id s. refl;
}
