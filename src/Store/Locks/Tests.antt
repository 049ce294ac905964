-- ===== src/Store/Locks/Tests.antt =====
-- Goroutines that write both maps of lib/store.go at once, stopped in the middle of their parts.
use mathlib.Core.WellFounded.{Acc}
use mev_boost.Common.{
  ◌*◌, ◌≤◌, ◌≡◌, refl, ◌⊎◌, Option, some, List, [], ◌∷◌, All, replicate, true, bytes_eq, string_eq,
}
use mev_boost.Common.Map.{lookup, insert}
use mev_boost.Types.{Hash, zero_payload}
use mev_boost.Store.{Store, new_store, new_forkchoice_response_container}
use mev_boost.Store.Mutex.{announce, no_readers}
use mev_boost.Store.Mutex.Exclusion.{writing_of, reading_of}
use mev_boost.Store.Locks.{
  LockedStore, contents, Event, make_container, set_payload_written, set_response_made, returned,
  payload_set,
}
use mev_boost.Store.Locks.Moves.{
  set_payload_announces, set_response_announces, set_payload_locks, set_response_locks,
  set_payload_writes, set_response_makes,
}
use mev_boost.Store.Locks.Machine.{
  Machine, machine, started, GoroutineStep, goes, MachineRun, calls, steps, halts, and_then,
  sets_payload, sets_response,
}
use mev_boost.Store.Locks.Payloads.{payload_hold}
use mev_boost.Store.Locks.Responses.{response_hold}
use mev_boost.Store.Locks.Linear.{History, with_unfinished, linearizable}
use mev_boost.Store.Locks.Exclusion.{exclusion}
use mev_boost.Store.Locks.Termination.{Moved, operations_return}

abbrev key : Hash
key = replicate 32 1

abbrev middle_memory : LockedStore
middle_memory = record {
  payloads = (key, record { payload = zero_payload; added_at = 10 }) ∷ [];
  payload_mutex = record { announced = true; readers = 0 };
  forkchoices = ("0x01", new_forkchoice_response_container 20) ∷ [];
  forkchoice_mutex = record { announced = true; readers = 0 };
}

abbrev middle : Machine
middle =
    machine middle_memory
      (set_response_made 20 "0x01" "http://relay" "0x02" ∷ set_payload_written ∷ [])

abbrev written : List Event
written = payload_set 10 key zero_payload ∷ []

to_middle : MachineRun (started new_store) written middle
unfolding announce no_readers make_container insert lookup
to_middle = and_then (calls (sets_payload key (some zero_payload))) (
    and_then (calls (sets_response "0x01" "http://relay" "0x02")) (
      and_then (steps (goes (_ ∷ []) [] (set_payload_announces refl))) (
        and_then (steps (goes [] (_ ∷ []) (set_response_announces refl))) (
          and_then (steps (goes (_ ∷ []) [] (set_payload_locks refl))) (
            and_then (steps (goes [] (_ ∷ []) (set_response_locks refl))) (
              and_then (steps (goes (_ ∷ []) [] (set_payload_writes 10)))
                (and_then (steps (goes [] (_ ∷ []) (set_response_makes 20))) halts)))))))

linearizable_example :
    (b : Store) × History new_store written b
    × (contents middle_memory ≡ with_unfinished middle.goroutines b)
linearizable_example = linearizable new_store written middle to_middle

exclusion_example :
    (writing_of payload_hold middle.goroutines ≤ 1)
    × (writing_of payload_hold middle.goroutines * reading_of payload_hold middle.goroutines ≡ 0)
    × (writing_of response_hold middle.goroutines ≤ 1)
    × (writing_of response_hold middle.goroutines * reading_of response_hold middle.goroutines ≡ 0)
exclusion_example = exclusion new_store written middle to_middle

operations_return_example :
    Acc Moved middle
    × (All (λ t. t ≡ returned) middle.goroutines
        ⊎ ((e : Option Event) × (v : Machine) × GoroutineStep middle e v))
operations_return_example = operations_return new_store written middle to_middle
