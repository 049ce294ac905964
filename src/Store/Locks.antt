-- ===== src/Store/Locks.antt =====
-- lib/store.go with its mutexes: the store in memory, where a goroutine is in an operation of it, and
-- what the parts of an operation do to the maps.
use mathlib.Core.List.{Perm}
use mev_boost.Common.{
  ℕ, ◌≡◌, String, Option, none, some, List, [], ◌∷◌, ◌++◌, Bool, true, Eq, bytes_eq, string_eq,
}
use mev_boost.Common.Map.{GoMap, lookup, insert, keys}
use mev_boost.Types.{Hash, ExecutionPayloadWithTxRootV1}
use mev_boost.Store.{
  Store, ExecutionPayloadContainer, ForkchoiceResponseContainer, new_forkchoice_response_container,
  get_execution_payload, get_forkchoice_response, is_expired, cleanup_entry,
}
use mev_boost.Store.Mutex.{RwMutex, unlocked, r_lock, r_unlock, announce, no_readers, unlock}
pub mod Moves
pub mod Machine
pub mod Sweeps
pub mod Payloads
pub mod Responses
pub mod Linear
pub mod Exclusion
pub mod Enabled
pub mod Progress
pub mod Termination
pub mod Tests

pub record LockedStore : Type 0 where
  pub payloads : GoMap Hash ExecutionPayloadContainer
  pub payload_mutex : RwMutex
  pub forkchoices : GoMap String ForkchoiceResponseContainer
  pub forkchoice_mutex : RwMutex

abbrev pub contents : LockedStore → Store
contents s = record { payloads = s.payloads; forkchoices = s.forkchoices }

abbrev pub with_mutexes : Store → LockedStore
with_mutexes s = record {
  payloads = s.payloads;
  payload_mutex = unlocked;
  forkchoices = s.forkchoices;
  forkchoice_mutex = unlocked;
}

-- Where a goroutine is in the operation that it calls. `waiting`: its `Lock` has announced it.
-- `cleaning` has the visits so far, each with its time, and the keys to come.
pub data Goroutine : Type 0 where
  get_payload : Hash → Goroutine
  get_payload_locked : Hash → Goroutine
  get_payload_read : Option ExecutionPayloadWithTxRootV1 → Goroutine
  set_payload : Hash → Option ExecutionPayloadWithTxRootV1 → Goroutine
  set_payload_waiting : Hash → ExecutionPayloadWithTxRootV1 → Goroutine
  set_payload_locked : Hash → ExecutionPayloadWithTxRootV1 → Goroutine
  set_payload_written : Goroutine
  get_response : String → Goroutine
  get_response_locked : String → Goroutine
  get_response_read : Option (GoMap String String) → Goroutine
  set_response : String → String → String → Goroutine
  set_response_waiting : String → String → String → Goroutine
  set_response_locked : String → String → String → Goroutine
  set_response_made : ℕ → String → String → String → Goroutine
  set_response_written : Goroutine
  clean_payloads : Goroutine
  clean_payloads_waiting : Goroutine
  clean_payloads_locked : Goroutine
  cleaning_payloads : List (Hash × ℕ) → List Hash → Goroutine
  payloads_cleaned : Goroutine
  clean_responses : Goroutine
  clean_responses_waiting : Goroutine
  clean_responses_locked : Goroutine
  cleaning_responses : List (String × ℕ) → List String → Goroutine
  responses_cleaned : Goroutine
  returned : Goroutine

-- What an operation does as a whole: a read with its result, a write with its time, or a cleanup
-- with its visits.
pub data Event : Type 0 where
  payload_got : Hash → Option ExecutionPayloadWithTxRootV1 → Event
  payload_set : ℕ → Hash → ExecutionPayloadWithTxRootV1 → Event
  responses_got : String → Option (GoMap String String) → Event
  response_set : ℕ → String → String → String → Event
  payloads_swept : List (Hash × ℕ) → Event
  responses_swept : List (String × ℕ) → Event

-- if _, ok := s.forkchoices[id]; !ok { s.forkchoices[id] = newForkchoiceResponseContainer() }
pub make_container :
    ℕ → String → GoMap String ForkchoiceResponseContainer → GoMap String ForkchoiceResponseContainer
make_container now id m = elim (lookup id m) [
  | none ↦ insert id (new_forkchoice_response_container now) m
  | some c ↦ m
]

-- s.forkchoices[id].Payload[url] = rid, which panics, `none`, if there is no container.
pub write_response :
    String
    → String
    → String
    → GoMap String ForkchoiceResponseContainer
    → Option (GoMap String ForkchoiceResponseContainer)
write_response id url rid m = elim (lookup id m) [
  | none ↦ none
  | some c ↦ some (insert id (record c { payload = insert url rid c.payload }) m)
]
