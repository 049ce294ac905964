-- ===== src/Store/Locks/Enabled.antt =====
-- When a goroutine in an operation of lib/store.go can move.
use mathlib.Core.List.Perm
use mev_boost.Common.{
  suc, ◌≤◌, ◌≡◌, ◌≢◌, refl, ap, ◌∙◌, Option, none, some, [], ◌∷◌, true, false, nat_eq, arith,
  bytes_eq, string_eq,
}
use mev_boost.Store.Mutex.{RwMutex, free, waiting, r_lock, announce, no_readers}
use mev_boost.Store.Mutex.Counts.{is_writing, is_reading}
use mev_boost.Store.Locks.{
  LockedStore, Goroutine, Event, write_response, get_payload, get_payload_locked, get_payload_read,
  set_payload, set_payload_waiting, set_payload_locked, set_payload_written, get_response,
  get_response_locked, get_response_read, set_response, set_response_waiting, set_response_locked,
  set_response_made, set_response_written, clean_payloads, clean_payloads_waiting,
  clean_payloads_locked, cleaning_payloads, payloads_cleaned, clean_responses,
  clean_responses_waiting, clean_responses_locked, cleaning_responses, responses_cleaned, returned,
}
use mev_boost.Store.Locks.Moves.{
  StoreMove, get_payload_locks, get_payload_reads, get_payload_unlocks, set_payload_skips,
  set_payload_announces, set_payload_locks, set_payload_writes, set_payload_unlocks,
  get_response_locks, get_response_reads, get_response_unlocks, set_response_announces,
  set_response_locks, set_response_makes, set_response_writes, set_response_unlocks,
  clean_payloads_announces, clean_payloads_locks, clean_payloads_ranges, clean_payloads_visits,
  clean_payloads_ends, clean_payloads_unlocks, clean_responses_announces, clean_responses_locks,
  clean_responses_ranges, clean_responses_visits, clean_responses_ends, clean_responses_unlocks,
}
use mev_boost.Store.Locks.Payloads.{payload_hold}
use mev_boost.Store.Locks.Responses.{
  Responses, response_hold, responses_ahead, write_response-make_container,
}

-- A goroutine can move.
abbrev pub CanGo : LockedStore → Goroutine → Type 0
CanGo s t = (e : Option Event) × (s' : LockedStore) × (t' : Goroutine) × StoreMove s t e s' t'

-- Under a mutex nothing has to wait.
pub writes_payloads :
    (s : LockedStore) (t : Goroutine) → 1 ≤ is_writing (payload_hold t) → CanGo s t
writes_payloads s (set_payload_locked k p) h = (_, _, _, set_payload_writes 0)
writes_payloads s set_payload_written h = (_, _, _, set_payload_unlocks)
writes_payloads s clean_payloads_locked h = (_, _, _, clean_payloads_ranges _ Perm.rfl)
writes_payloads s (cleaning_payloads done []) h = (_, _, _, clean_payloads_ends)
writes_payloads s (cleaning_payloads done (k ∷ ks)) h = (_, _, _, clean_payloads_visits 0)
writes_payloads s payloads_cleaned h = (_, _, _, clean_payloads_unlocks)
writes_payloads s _ h = absurd (omega arith)

pub reads_payloads : (s : LockedStore) (t : Goroutine) → 1 ≤ is_reading (payload_hold t) → CanGo s t
reads_payloads s (get_payload_locked k) h = (_, _, _, get_payload_reads)
reads_payloads s (get_payload_read r) h = (_, _, _, get_payload_unlocks)
reads_payloads s _ h = absurd (omega arith)

-- The container is there when `SetForkchoiceResponse` writes its entry.
pub writes_responses :
    (s : LockedStore) (t : Goroutine) (a : Responses)
    → s.forkchoices ≡ responses_ahead t a
    → 1 ≤ is_writing (response_hold t)
    → CanGo s t
writes_responses s (set_response_locked id url rid) a e h = (_, _, _, set_response_makes 0)
writes_responses s (set_response_made now id url rid) a e h = (
  _,
  _,
  _,
  set_response_writes
      (ap (write_response id url rid) e ∙ write_response-make_container now id url rid a),
)
writes_responses s set_response_written a e h = (_, _, _, set_response_unlocks)
writes_responses s clean_responses_locked a e h = (_, _, _, clean_responses_ranges _ Perm.rfl)
writes_responses s (cleaning_responses done []) a e h = (_, _, _, clean_responses_ends)
writes_responses s (cleaning_responses done (k ∷ ks)) a e h = (_, _, _, clean_responses_visits 0)
writes_responses s responses_cleaned a e h = (_, _, _, clean_responses_unlocks)
writes_responses s _ a e h = absurd (omega arith)

pub reads_responses :
    (s : LockedStore) (t : Goroutine) → 1 ≤ is_reading (response_hold t) → CanGo s t
reads_responses s (get_response_locked id) h = (_, _, _, get_response_reads)
reads_responses s (get_response_read r) h = (_, _, _, get_response_unlocks)
reads_responses s _ h = absurd (omega arith)

pub enters_payloads :
    (s : LockedStore) (t : Goroutine)
    → payload_hold t ≡ waiting
    → no_readers s.payload_mutex ≡ true
    → CanGo s t
enters_payloads s (set_payload_waiting k p) h none_read = (_, _, _, set_payload_locks none_read)
enters_payloads s clean_payloads_waiting h none_read = (_, _, _, clean_payloads_locks none_read)
enters_payloads s _ h none_read = cc

pub enters_responses :
    (s : LockedStore) (t : Goroutine)
    → response_hold t ≡ waiting
    → no_readers s.forkchoice_mutex ≡ true
    → CanGo s t
enters_responses s (set_response_waiting id url rid) h none_read =
    (_, _, _, set_response_locks none_read)
enters_responses s clean_responses_waiting h none_read = (_, _, _, clean_responses_locks none_read)
enters_responses s _ h none_read = cc

-- A mutex without an announced writer lets everyone in.
r_lock_free : (x : RwMutex) → x.announced ≡ false → (x' : RwMutex) × (r_lock x ≡ some x')
unfolding r_lock
r_lock_free x e = (record x { readers = suc x.readers }, ground arith)

announce_free : (x : RwMutex) → x.announced ≡ false → (x' : RwMutex) × (announce x ≡ some x')
unfolding announce
announce_free x e = (record x { announced = true }, ground arith)

pub begins_free :
    (s : LockedStore) (t : Goroutine)
    → t ≢ returned
    → payload_hold t ≡ free
    → response_hold t ≡ free
    → s.payload_mutex.announced ≡ false
    → s.forkchoice_mutex.announced ≡ false
    → CanGo s t
begins_free s (get_payload k) out hp hr p r =
    (_, _, _, get_payload_locks (r_lock_free s.payload_mutex p).1)
begins_free s (set_payload k none) out hp hr p r = (_, _, _, set_payload_skips)
begins_free s (set_payload k (some v)) out hp hr p r =
    (_, _, _, set_payload_announces (announce_free s.payload_mutex p).1)
begins_free s (get_response id) out hp hr p r =
    (_, _, _, get_response_locks (r_lock_free s.forkchoice_mutex r).1)
begins_free s (set_response id url rid) out hp hr p r =
    (_, _, _, set_response_announces (announce_free s.forkchoice_mutex r).1)
begins_free s clean_payloads out hp hr p r =
    (_, _, _, clean_payloads_announces (announce_free s.payload_mutex p).1)
begins_free s clean_responses out hp hr p r =
    (_, _, _, clean_responses_announces (announce_free s.forkchoice_mutex r).1)
begins_free s returned out hp hr p r = absurd (out refl)
begins_free s _ out hp hr p r = cc
