-- ===== src/Store/Locks/Machine.antt =====
-- Any number of goroutines over one store of lib/store.go, which move one at a time, in any order.
use mev_boost.Common.{String, Option, none, some, List, [], ◌∷◌, ◌++◌, bytes_eq, string_eq}
use mev_boost.Types.{Hash, ExecutionPayloadWithTxRootV1}
use mev_boost.Store.{Store}
use mev_boost.Store.Locks.{
  LockedStore, with_mutexes, Goroutine, get_payload, set_payload, get_response, set_response,
  clean_payloads, Event,
}
use mev_boost.Store.Locks.Moves.{StoreMove}

-- A goroutine that has just called an operation.
pub data Begins : Goroutine → Type 0 where
  gets_payload : (k : Hash) → Begins (get_payload k)
  sets_payload : (k : Hash) (p : Option ExecutionPayloadWithTxRootV1) → Begins (set_payload k p)
  gets_response : (id : String) → Begins (get_response id)
  sets_response : (id url rid : String) → Begins (set_response id url rid)
  cleans : Begins clean_payloads

pub record Machine : Type 0 where
  pub memory : LockedStore
  pub goroutines : List Goroutine

abbrev pub machine : LockedStore → List Goroutine → Machine
machine s ts = record { memory = s; goroutines = ts }

abbrev pub started : Store → Machine
started s = machine (with_mutexes s) []

-- One of the goroutines makes a move.
pub data GoroutineStep : Machine → Option Event → Machine → Type 0 where
  goes :
      {s s' : LockedStore} {t t' : Goroutine} {e : Option Event} (before after : List Goroutine)
      → StoreMove s t e s' t'
      → GoroutineStep (machine s (before ++ t ∷ after)) e (machine s' (before ++ t' ∷ after))

pub data MachineStep : Machine → Option Event → Machine → Type 0 where
  calls :
      {s : LockedStore} {ts : List Goroutine} {t : Goroutine}
      → Begins t
      → MachineStep (machine s ts) none (machine s (t ∷ ts))
  steps : {u v : Machine} {e : Option Event} → GoroutineStep u e v → MachineStep u e v

abbrev pub and_event : Option Event → List Event → List Event
and_event none es = es
and_event (some e) es = e ∷ es

pub data MachineRun : Machine → List Event → Machine → Type 0 where
  halts : {u : Machine} → MachineRun u [] u
  and_then :
      {u v w : Machine} {e : Option Event} {es : List Event}
      → MachineStep u e v
      → MachineRun v es w
      → MachineRun u (and_event e es) w
