-- ===== src/Store/Locks/Termination.antt =====
-- The operations of lib/store.go return, however the scheduler picks the goroutines that move.
use mathlib.Core.WellFounded.{Acc}
use mev_boost.Common.{
  ℕ, zero, suc, ◌≤◌, ◌<◌, ◌≡◌, ◌≢◌, refl, ap, ◌⊎◌, inl, inr, Option, List, [], ◌∷◌, ◌++◌, All,
  length, arith,
}
use mev_boost.Store.{Store}
use mev_boost.Store.Mutex.Counts.{total, total-middle}
use mev_boost.Store.Locks.{
  LockedStore, Goroutine, Event, get_payload, get_payload_locked, get_payload_read, set_payload,
  set_payload_waiting, set_payload_locked, set_payload_written, get_response, get_response_locked,
  get_response_read, set_response, set_response_waiting, set_response_locked, set_response_made,
  set_response_written, clean_payloads, clean_payloads_waiting, clean_payloads_locked,
  cleaning_payloads, payloads_cleaned, clean_responses, clean_responses_waiting,
  clean_responses_locked, cleaning_responses, responses_cleaned, returned,
}
use mev_boost.Store.Locks.Moves.{
  StoreMove, set_payload_skips, clean_payloads_visits, clean_responses_visits,
}
use mev_boost.Store.Locks.Machine.{Machine, started, GoroutineStep, goes, MachineRun}
use mev_boost.Store.Locks.Progress.{progress}

-- The stages that are left, and the turns of a loop.
rank : Goroutine → ℕ
rank (get_payload k) = 3
rank (get_payload_locked k) = 2
rank (get_payload_read r) = 1
rank (set_payload k p) = 4
rank (set_payload_waiting k p) = 3
rank (set_payload_locked k p) = 2
rank set_payload_written = 1
rank (get_response id) = 3
rank (get_response_locked id) = 2
rank (get_response_read r) = 1
rank (set_response id url rid) = 5
rank (set_response_waiting id url rid) = 4
rank (set_response_locked id url rid) = 3
rank (set_response_made now id url rid) = 2
rank set_response_written = 1
rank clean_payloads = 10
rank clean_payloads_waiting = 9
rank clean_payloads_locked = 8
rank (cleaning_payloads done left) = 7
rank payloads_cleaned = 6
rank clean_responses = 5
rank clean_responses_waiting = 4
rank clean_responses_locked = 3
rank (cleaning_responses done left) = 2
rank responses_cleaned = 1
rank returned = 0

turns : Goroutine → ℕ
turns (cleaning_payloads done left) = length left
turns (cleaning_responses done left) = length left
turns _ = 0

StoreMove-rank :
    {s s' : LockedStore} {t t' : Goroutine} {e : Option Event}
    → StoreMove s t e s' t'
    → (rank t' < rank t) ⊎ ((rank t' ≡ rank t) × (turns t' < turns t))
unfolding rank turns
StoreMove-rank (clean_payloads_visits now) = inr (refl, omega arith)
StoreMove-rank (clean_responses_visits now) = inr (refl, omega arith)
StoreMove-rank (set_payload_skips) = inl (omega arith)
StoreMove-rank _ = inl (omega arith)

GoroutineStep-rank :
    {u v : Machine} {e : Option Event}
    → GoroutineStep u e v
    → (total rank v.goroutines < total rank u.goroutines)
      ⊎ ((total rank v.goroutines ≡ total rank u.goroutines)
          × (total turns v.goroutines < total turns u.goroutines))
GoroutineStep-rank (goes {t} {t'} before after move) =
    let old = total-middle rank before t after in
    let new = total-middle rank before t' after in
    let old_turns = total-middle turns before t after in
    let new_turns = total-middle turns before t' after in
    elim (StoreMove-rank move) [
      | inl less ↦ inl (omega (arith, old, new, less))
      | inr (same, less) ↦
          inr (omega (arith, old, new, same), omega (arith, old_turns, new_turns, less))
    ]

-- v is what one move makes of u.
abbrev pub Moved : Machine → Machine → Type 0
Moved v u = (e : Option Event) × GoroutineStep u e v

ends_within :
    (n m : ℕ) (u : Machine)
    → total rank u.goroutines ≤ n
    → total turns u.goroutines ≤ m
    → Acc Moved u
ends_within zero zero u hn hm = Acc.intro u (λ v step. elim (GoroutineStep-rank step.1) [
  | inl less ↦ absurd (omega arith)
  | inr (same, less) ↦ absurd (omega arith)
])
ends_within zero (suc m) u hn hm = Acc.intro u (λ v step. elim (GoroutineStep-rank step.1) [
  | inl less ↦ absurd (omega arith)
  | inr (same, less) ↦ ends_within zero m v (omega arith) (omega arith)
])
ends_within (suc n) zero u hn hm = Acc.intro u (λ v step. elim (GoroutineStep-rank step.1) [
  | inl less ↦ ends_within n (total turns v.goroutines) v (omega arith) (omega arith)
  | inr (same, less) ↦ absurd (omega arith)
])
ends_within (suc n) (suc m) u hn hm = Acc.intro u (λ v step. elim (GoroutineStep-rank step.1) [
  | inl less ↦ ends_within n (total turns v.goroutines) v (omega arith) (omega arith)
  | inr (same, less) ↦ ends_within (suc n) m v (omega arith) (omega arith)
])

has_returned : (t : Goroutine) → (t ≡ returned) ⊎ (t ≢ returned)
has_returned returned = inl refl
has_returned _ = inr (λ e. cc)

all_returned :
    (ts : List Goroutine)
    → All (λ t. t ≡ returned) ts
      ⊎ ((before : List Goroutine) × (t : Goroutine) × (after : List Goroutine) × (ts
            ≡ before ++ t ∷ after)
          × (t ≢ returned))
all_returned [] = inl tt
all_returned (t ∷ ts) = elim (has_returned t) [
  | inr out ↦ inr ([], t, ts, refl, out)
  | inl done ↦ elim (all_returned ts) [
    | inl rest ↦ inl (done, rest)
    | inr (before, u, after, e, out) ↦ inr (t ∷ before, u, after, ap (λ r. t ∷ r) e, out)
  ]
]

-- In every state that goroutines reach which call the operations of a store, in any number and
-- order and with their moves interleaved, no schedule of their moves goes on forever without further
-- calls, and either all of them have returned or some goroutine can make its next move: there is no
-- deadlock, and no assignment to a missing container.
pub operations_return :
    (s : Store) (es : List Event) (u : Machine)
    → MachineRun (started s) es u
    → Acc Moved u
      × (All (λ t. t ≡ returned) u.goroutines
          ⊎ ((e : Option Event) × (v : Machine) × GoroutineStep u e v))
operations_return s es u run = (
  ends_within (total rank u.goroutines) (total turns u.goroutines) u (omega arith) (omega arith),
  elim (all_returned u.goroutines) [
    | inl done ↦ inl done
    | inr (before, t, after, at, out) ↦ inr (progress s es u before t after run at out)
  ],
)
