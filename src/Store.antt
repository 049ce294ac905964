-- ===== src/Store.antt =====
-- lib/store.go: the store of payloads and of the relays' payload ids. Each operation is
-- one function of the state here, as under its mutex; Store.Locks is about the mutexes. The clock
-- `now` is an argument. Times are nanoseconds.
use mev_boost.Common.{
  ℕ, ◌-◌, ◌*◌, String, Option, none, some, List, [], ◌∷◌, Bool, ltb, if◌then◌else◌, Eq, bytes_eq,
  string_eq,
}
use mev_boost.Common.Map.{GoMap, lookup, insert, delete, keys}
use mev_boost.Types.{Hash, ExecutionPayloadWithTxRootV1}
pub mod Interface
pub mod Cleanup
pub mod InMemory
pub mod Run
pub mod Available
pub mod Mutex
pub mod Locks
pub mod Abstract
pub mod References
pub mod Tests

abbrev pub second : ℕ
second = 1_000_000_000

abbrev pub cleanup_loop_interval : ℕ
cleanup_loop_interval = 5 * (60 * second)

abbrev pub seconds_per_slot : ℕ
seconds_per_slot = 12

abbrev pub slots_per_epoch : ℕ
slots_per_epoch = 32

abbrev pub state_expiry : ℕ
state_expiry = second * (seconds_per_slot * slots_per_epoch * 2)

pub record ExecutionPayloadContainer : Type 0 where
  pub payload : ExecutionPayloadWithTxRootV1
  pub added_at : ℕ

pub record ForkchoiceResponseContainer : Type 0 where
  pub payload : GoMap String String
  pub added_at : ℕ

abbrev pub new_forkchoice_response_container : ℕ → ForkchoiceResponseContainer
new_forkchoice_response_container now = record { payload = []; added_at = now }

pub record Store : Type 0 where
  pub payloads : GoMap Hash ExecutionPayloadContainer
  pub forkchoices : GoMap String ForkchoiceResponseContainer

abbrev pub new_store : Store
new_store = record { payloads = []; forkchoices = [] }

unfoldable pub get_execution_payload : Hash → Store → Option ExecutionPayloadWithTxRootV1
get_execution_payload block_hash s = elim (lookup block_hash s.payloads) [
  | none ↦ none
  | some c ↦ some c.payload
]

-- A nil payload is not stored.
unfoldable pub set_execution_payload :
    ℕ → Hash → Option ExecutionPayloadWithTxRootV1 → Store → Store
set_execution_payload now block_hash none s = s
set_execution_payload now block_hash (some p) s = record s {
  payloads = insert block_hash (record { payload = p; added_at = now }) s.payloads;
}

-- `none` is the result `(nil, false)`.
unfoldable pub get_forkchoice_response : String → Store → Option (GoMap String String)
get_forkchoice_response payload_id s = elim (lookup payload_id s.forkchoices) [
  | none ↦ none
  | some c ↦ some c.payload
]

-- The container of an id, made at its first response.
abbrev container_or_new : ℕ → Option ForkchoiceResponseContainer → ForkchoiceResponseContainer
container_or_new now none = new_forkchoice_response_container now
container_or_new now (some c) = c

unfoldable pub set_forkchoice_response : ℕ → String → String → String → Store → Store
set_forkchoice_response now boost_payload_id relay_url relay_payload_id s =
    let c = container_or_new now (lookup boost_payload_id s.forkchoices) in
    record s {
      forkchoices =
          insert boost_payload_id
            (record c { payload = insert relay_url relay_payload_id c.payload }) s.forkchoices;
    }

-- time.Since(addedAt) > stateExpiry
unfoldable pub is_expired : ℕ → ℕ → Bool
is_expired now added_at = ltb state_expiry (now - added_at)

-- A loop of `Cleanup` over the keys of a map: the entry is read by its key, and deleted if it is
-- too old.
module _ {K V : Type 0} ⦃e : Eq K⦄ (too_old : V → Bool) where
  pub cleanup_entry : K → GoMap K V → GoMap K V
  cleanup_entry k m = elim (lookup k m) [ none ↦ m | some c ↦ if too_old c then delete k m else m ]

  pub cleanup_loop : List K → GoMap K V → GoMap K V
  cleanup_loop [] m = m
  cleanup_loop (k ∷ ks) m = cleanup_loop ks (cleanup_entry k m)

unfoldable pub cleanup : ℕ → Store → Store
unfolding cleanup_loop cleanup_entry
cleanup now s = record {
  payloads = cleanup_loop (λ c. is_expired now c.added_at) (keys s.payloads) s.payloads;
  forkchoices = cleanup_loop (λ c. is_expired now c.added_at) (keys s.forkchoices) s.forkchoices;
}

-- Turns of a loop of `Cleanup`, each with its own time, which time.Since reads.
module _ {K V : Type 0} ⦃e : Eq K⦄ (added_at : V → ℕ) where
  pub visit : K × ℕ → GoMap K V → GoMap K V
  visit v m = cleanup_entry (λ c. is_expired v.1 (added_at c)) v.0 m

  pub sweep : List (K × ℕ) → GoMap K V → GoMap K V
  sweep [] m = m
  sweep (v ∷ vs) m = sweep vs (visit v m)

abbrev pub visit_payload :
    Hash × ℕ → GoMap Hash ExecutionPayloadContainer → GoMap Hash ExecutionPayloadContainer
visit_payload = visit (λ c. c.added_at)

abbrev pub visit_response :
    String × ℕ → GoMap String ForkchoiceResponseContainer → GoMap String ForkchoiceResponseContainer
visit_response = visit (λ c. c.added_at)

abbrev pub sweep_payloads :
    List (Hash × ℕ) → GoMap Hash ExecutionPayloadContainer → GoMap Hash ExecutionPayloadContainer
sweep_payloads = sweep (λ c. c.added_at)

abbrev pub sweep_responses :
    List (String × ℕ)
    → GoMap String ForkchoiceResponseContainer
    → GoMap String ForkchoiceResponseContainer
sweep_responses = sweep (λ c. c.added_at)

-- The two parts of `Cleanup`, each of them under one mutex.
unfoldable pub cleanup_payloads : List (Hash × ℕ) → Store → Store
cleanup_payloads visits s = record s { payloads = sweep_payloads visits s.payloads }

unfoldable pub cleanup_responses : List (String × ℕ) → Store → Store
cleanup_responses visits s = record s { forkchoices = sweep_responses visits s.forkchoices }
