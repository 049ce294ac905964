-- ===== src/Store/Locks/Progress.antt =====
-- No deadlock in lib/store.go.
use mathlib.Core.Path.{subst}
use mev_boost.Common.{
  ◌≤◌, ◌≡◌, ◌≢◌, sym, ap, ◌∙◌, ◌⊎◌, inl, inr, Option, List, ◌∷◌, ◌++◌, true, false, nat_eq, arith,
}
use mev_boost.Store.{Store}
use mev_boost.Store.Mutex.{free, no_readers}
use mev_boost.Store.Mutex.Exclusion.{
  IsConsistent, IsConsistent-writing, announced_or_none, readers_or_none,
}
use mev_boost.Store.Mutex.Counts.{
  is_writing, is_announced, is_writing-writing, Hold-cases, total_found,
}
use mev_boost.Store.Mutex.Guarded.{all_ahead, all_ahead_alone}
use mev_boost.Store.Locks.{Goroutine, Event, returned}
use mev_boost.Store.Locks.Machine.{Machine, machine, started, GoroutineStep, MachineRun, goes}
use mev_boost.Store.Locks.Payloads.{payload_hold}
use mev_boost.Store.Locks.Responses.{
  response_hold, responses_ahead, ResponsesFit, ResponsesAfter, responses_laws,
}
use mev_boost.Store.Locks.Linear.{Follows, MachineRun-Follows, started-Follows}
use mev_boost.Store.Locks.Enabled.{
  CanGo, writes_payloads, reads_payloads, writes_responses, reads_responses, enters_payloads,
  enters_responses, begins_free,
}

or_else : {A C : Type 0} → A ⊎ C → (A → C) → C
or_else (inl a) f = f a
or_else (inr c) f = c

-- One of the goroutines can move.
abbrev CanStep : Machine → Type 0
CanStep u = (e : Option Event) × (v : Machine) × GoroutineStep u e v

abbrev At : Machine → (List Goroutine) → Goroutine → List Goroutine → Type 0
At u before t after = u.goroutines ≡ before ++ t ∷ after

can_step :
    (u : Machine) (before : List Goroutine) (t : Goroutine) (after : List Goroutine)
    → At u before t after
    → CanGo u.memory t
    → CanStep u
can_step u before t after e (event, s', t', move) =
    subst (λ ts. CanStep (machine u.memory ts)) (sym e) (event, _, goes before after move)

-- Whoever holds a mutex can move.
module _ (u : Machine) (b : Store) (f : Follows u b) where
  response_writer :
      (before : List Goroutine) (t : Goroutine) (after : List Goroutine)
      → At u before t after
      → 1 ≤ is_writing (response_hold t)
      → CanStep u
  response_writer before t after e h =
      let c =
        subst (IsConsistent response_hold u.memory.forkchoice_mutex) e f.responses.consistent in
      let others =
        (IsConsistent-writing response_hold before t after c (is_writing-writing _ h)).0 in
      let state =
        subst
          (λ ts.
            u.memory.forkchoices
            ≡ all_ahead response_hold responses_ahead ResponsesFit ResponsesAfter ts b.forkchoices)
          e f.responses.state in
      can_step u before t after e (
        writes_responses u.memory t b.forkchoices
          (state ∙ all_ahead_alone _ _ _ _ responses_laws before t after b.forkchoices others) h)

  -- A writer can enter the payloads, or a reader of them can move.
  payloads_entered : (no_readers u.memory.payload_mutex ≡ true) ⊎ CanStep u
  payloads_entered = elim (readers_or_none payload_hold f.payloads.consistent) [
    | inl none_read ↦ inl none_read
    | inr some_read ↦
        let (before, t, after, e, h) = total_found _ u.goroutines some_read in
        inr (can_step u before t after e (reads_payloads u.memory t h))
  ]

  responses_entered : (no_readers u.memory.forkchoice_mutex ≡ true) ⊎ CanStep u
  responses_entered = elim (readers_or_none response_hold f.responses.consistent) [
    | inl none_read ↦ inl none_read
    | inr some_read ↦
        let (before, t, after, e, h) = total_found _ u.goroutines some_read in
        inr (can_step u before t after e (reads_responses u.memory t h))
  ]

  payload_goer :
      (before : List Goroutine) (t : Goroutine) (after : List Goroutine)
      → At u before t after
      → (payload_hold t ≡ free) ⊎ CanStep u
  payload_goer before t after e = elim (Hold-cases (payload_hold t)) [
    | inl f ↦ inl f
    | inr (inl waits) ↦ inr (
        or_else payloads_entered
          λ none_read. can_step u before t after e (enters_payloads u.memory t waits none_read))
    | inr (inr (inl writes)) ↦ inr (can_step u before t after e (writes_payloads u.memory t writes))
    | inr (inr (inr reads)) ↦ inr (can_step u before t after e (reads_payloads u.memory t reads))
  ]

  response_goer :
      (before : List Goroutine) (t : Goroutine) (after : List Goroutine)
      → At u before t after
      → (response_hold t ≡ free) ⊎ CanStep u
  response_goer before t after e = elim (Hold-cases (response_hold t)) [
    | inl f ↦ inl f
    | inr (inl waits) ↦ inr (
        or_else responses_entered
          λ none_read. can_step u before t after e (enters_responses u.memory t waits none_read))
    | inr (inr (inl writes)) ↦ inr (response_writer before t after e writes)
    | inr (inr (inr reads)) ↦ inr (can_step u before t after e (reads_responses u.memory t reads))
  ]

  -- No writer is announced, or some goroutine can move.
  payloads_open : (u.memory.payload_mutex.announced ≡ false) ⊎ CanStep u
  payloads_open = elim (announced_or_none payload_hold f.payloads.consistent) [
    | inl open_to_all ↦ inl open_to_all
    | inr some_announced ↦
        let (before, t, after, e, h) = total_found _ u.goroutines some_announced in
        inr (
          or_else (payload_goer before t after e)
            λ has_nothing. absurd (omega (arith, h, ap is_announced has_nothing)))
  ]

  responses_open : (u.memory.forkchoice_mutex.announced ≡ false) ⊎ CanStep u
  responses_open = elim (announced_or_none response_hold f.responses.consistent) [
    | inl open_to_all ↦ inl open_to_all
    | inr some_announced ↦
        let (before, t, after, e, h) = total_found _ u.goroutines some_announced in
        inr (
          or_else (response_goer before t after e)
            λ has_nothing. absurd (omega (arith, h, ap is_announced has_nothing)))
  ]

  steps_on :
      (before : List Goroutine) (t : Goroutine) (after : List Goroutine)
      → At u before t after
      → t ≢ returned
      → CanStep u
  steps_on before t after e out = or_else (payload_goer before t after e) λ p.
      or_else (response_goer before t after e) λ r. or_else payloads_open λ open_p.
        or_else responses_open
          λ open_r. can_step u before t after e (begins_free u.memory t out p r open_p open_r)

-- A goroutine that has not returned keeps the machine going.
pub progress :
    (s : Store) (es : List Event) (u : Machine) (before : List Goroutine) (t : Goroutine)
    (after : List Goroutine)
    → MachineRun (started s) es u
    → u.goroutines ≡ before ++ t ∷ after
    → t ≢ returned
    → (e : Option Event) × (v : Machine) × GoroutineStep u e v
progress s es u before t after run at out =
    let (b, history, f) = MachineRun-Follows s run (started-Follows s) in
    steps_on u b f before t after at out
