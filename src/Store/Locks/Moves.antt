-- ===== src/Store/Locks/Moves.antt =====
-- lib/store.go, move by move: goroutines that call the operations of one store at once. A move is a
-- call of a mutex, a read or a write of a map, or a turn of a loop of `Cleanup`, and any goroutine
-- may make the next one. `time.Since` and `now` read the clock at each move, so their time is
-- arbitrary.
use mathlib.Core.List.{Perm}
use mev_boost.Common.{
  ℕ, ◌≡◌, String, Option, none, some, List, [], ◌∷◌, ◌++◌, true, bytes_eq, string_eq,
}
use mev_boost.Common.Map.{GoMap, insert, keys}
use mev_boost.Types.{Hash, ExecutionPayloadWithTxRootV1}
use mev_boost.Store.{
  ForkchoiceResponseContainer, get_execution_payload, get_forkchoice_response, visit_payload,
  visit_response,
}
use mev_boost.Store.Mutex.{RwMutex, r_lock, r_unlock, announce, no_readers, unlock}
use mev_boost.Store.Locks.{
  LockedStore, contents, Goroutine, get_payload, get_payload_locked, get_payload_read, set_payload,
  set_payload_waiting, set_payload_locked, set_payload_written, get_response, get_response_locked,
  get_response_read, set_response, set_response_waiting, set_response_locked, set_response_made,
  set_response_written, clean_payloads, clean_payloads_waiting, clean_payloads_locked,
  cleaning_payloads, payloads_cleaned, clean_responses, clean_responses_waiting,
  clean_responses_locked, cleaning_responses, responses_cleaned, returned, Event, payload_got,
  payload_set, responses_got, response_set, payloads_swept, responses_swept, make_container,
  write_response,
}

pub data StoreMove (s : LockedStore)
    : Goroutine → Option Event → LockedStore → Goroutine → Type 0 where
  -- GetExecutionPayload
  get_payload_locks :
      {k : Hash} {x : RwMutex}
      → r_lock s.payload_mutex ≡ some x
      → StoreMove s (get_payload k) none (record s { payload_mutex = x }) (get_payload_locked k)
  get_payload_reads :
      {k : Hash}
      → StoreMove s
          (get_payload_locked k)
          (some (payload_got k (get_execution_payload k (contents s))))
          s
          (get_payload_read (get_execution_payload k (contents s)))
  get_payload_unlocks :
      {r : Option ExecutionPayloadWithTxRootV1}
      → StoreMove s
          (get_payload_read r)
          none
          (record s { payload_mutex = r_unlock s.payload_mutex })
          returned
  -- SetExecutionPayload
  set_payload_skips : {k : Hash} → StoreMove s (set_payload k none) none s returned
  set_payload_announces :
      {k : Hash} {p : ExecutionPayloadWithTxRootV1} {x : RwMutex}
      → announce s.payload_mutex ≡ some x
      → StoreMove s
          (set_payload k (some p))
          none
          (record s { payload_mutex = x })
          (set_payload_waiting k p)
  set_payload_locks :
      {k : Hash} {p : ExecutionPayloadWithTxRootV1}
      → no_readers s.payload_mutex ≡ true
      → StoreMove s (set_payload_waiting k p) none s (set_payload_locked k p)
  set_payload_writes :
      {k : Hash} {p : ExecutionPayloadWithTxRootV1} (now : ℕ)
      → StoreMove s
          (set_payload_locked k p)
          (some (payload_set now k p))
          (record s { payloads = insert k (record { payload = p; added_at = now }) s.payloads })
          set_payload_written
  set_payload_unlocks :
      StoreMove s set_payload_written none
        (record s { payload_mutex = unlock s.payload_mutex })
        returned
  -- GetForkchoiceResponse
  get_response_locks :
      {id : String} {x : RwMutex}
      → r_lock s.forkchoice_mutex ≡ some x
      → StoreMove s
          (get_response id)
          none
          (record s { forkchoice_mutex = x })
          (get_response_locked id)
  get_response_reads :
      {id : String}
      → StoreMove s
          (get_response_locked id)
          (some (responses_got id (get_forkchoice_response id (contents s))))
          s
          (get_response_read (get_forkchoice_response id (contents s)))
  get_response_unlocks :
      {r : Option (GoMap String String)}
      → StoreMove s
          (get_response_read r)
          none
          (record s { forkchoice_mutex = r_unlock s.forkchoice_mutex })
          returned
  -- SetForkchoiceResponse
  set_response_announces :
      {id url rid : String} {x : RwMutex}
      → announce s.forkchoice_mutex ≡ some x
      → StoreMove s
          (set_response id url rid)
          none
          (record s { forkchoice_mutex = x })
          (set_response_waiting id url rid)
  set_response_locks :
      {id url rid : String}
      → no_readers s.forkchoice_mutex ≡ true
      → StoreMove s (set_response_waiting id url rid) none s (set_response_locked id url rid)
  set_response_makes :
      {id url rid : String} (now : ℕ)
      → StoreMove s
          (set_response_locked id url rid)
          none
          (record s { forkchoices = make_container now id s.forkchoices })
          (set_response_made now id url rid)
  set_response_writes :
      {now : ℕ} {id url rid : String} {m : GoMap String ForkchoiceResponseContainer}
      → write_response id url rid s.forkchoices ≡ some m
      → StoreMove s
          (set_response_made now id url rid)
          (some (response_set now id url rid))
          (record s { forkchoices = m })
          set_response_written
  set_response_unlocks :
      StoreMove s set_response_written none
        (record s { forkchoice_mutex = unlock s.forkchoice_mutex })
        returned
  -- Cleanup
  clean_payloads_announces :
      {x : RwMutex}
      → announce s.payload_mutex ≡ some x
      → StoreMove s clean_payloads none (record s { payload_mutex = x }) clean_payloads_waiting
  clean_payloads_locks :
      no_readers s.payload_mutex ≡ true
      → StoreMove s clean_payloads_waiting none s clean_payloads_locked
  clean_payloads_ranges :
      (ks : List Hash)
      → Perm (keys s.payloads) ks
      → StoreMove s clean_payloads_locked none s (cleaning_payloads [] ks)
  clean_payloads_visits :
      {done : List (Hash × ℕ)} {k : Hash} {ks : List Hash} (now : ℕ)
      → StoreMove s
          (cleaning_payloads done (k ∷ ks))
          none
          (record s { payloads = visit_payload (k, now) s.payloads })
          (cleaning_payloads (done ++ (k, now) ∷ []) ks)
  clean_payloads_ends :
      {done : List (Hash × ℕ)}
      → StoreMove s (cleaning_payloads done []) (some (payloads_swept done)) s payloads_cleaned
  clean_payloads_unlocks :
      StoreMove s payloads_cleaned none
        (record s { payload_mutex = unlock s.payload_mutex })
        clean_responses
  clean_responses_announces :
      {x : RwMutex}
      → announce s.forkchoice_mutex ≡ some x
      → StoreMove s clean_responses none (record s { forkchoice_mutex = x }) clean_responses_waiting
  clean_responses_locks :
      no_readers s.forkchoice_mutex ≡ true
      → StoreMove s clean_responses_waiting none s clean_responses_locked
  clean_responses_ranges :
      (ks : List String)
      → Perm (keys s.forkchoices) ks
      → StoreMove s clean_responses_locked none s (cleaning_responses [] ks)
  clean_responses_visits :
      {done : List (String × ℕ)} {k : String} {ks : List String} (now : ℕ)
      → StoreMove s
          (cleaning_responses done (k ∷ ks))
          none
          (record s { forkchoices = visit_response (k, now) s.forkchoices })
          (cleaning_responses (done ++ (k, now) ∷ []) ks)
  clean_responses_ends :
      {done : List (String × ℕ)}
      → StoreMove s (cleaning_responses done []) (some (responses_swept done)) s responses_cleaned
  clean_responses_unlocks :
      StoreMove s responses_cleaned none
        (record s { forkchoice_mutex = unlock s.forkchoice_mutex })
        returned
