-- ===== src/Store/Locks/Linear.antt =====
-- Linearizability of lib/store.go: goroutines that move one by one, beside operations that happen at
-- once. `Cleanup` is two operations, since it gives up one mutex before it takes the other.
use mathlib.Core.List.{Perm}
use mathlib.Core.Path.{subst}
use mev_boost.Common.{◌≡◌, refl, Option, none, some, List, [], ◌∷◌, map, bytes_eq, string_eq}
use mev_boost.Common.Map.{keys}
use mev_boost.Store.{
  Store, get_execution_payload, set_execution_payload, cleanup_payloads, cleanup_responses,
  get_forkchoice_response, set_forkchoice_response,
}
use mev_boost.Store.Mutex.{free}
use mev_boost.Store.Mutex.Guarded.{
  Simulates, all_ahead, Guarded-Simulates, Simulates-new, unlocked-Simulates,
}
use mev_boost.Store.Locks.{
  contents, Goroutine, Event, payload_got, payload_set, responses_got, response_set, payloads_swept,
  responses_swept,
}
use mev_boost.Store.Locks.Machine.{
  Begins, Machine, started, MachineStep, and_event, MachineRun, gets_payload, sets_payload,
  gets_response, sets_response, cleans, goes, calls, steps, halts, and_then,
}
use mev_boost.Store.Locks.Payloads.{
  Payloads, payload_hold, payloads_ahead, PayloadsFit, PayloadsAfter, payloads_laws,
  StoreMove-PayloadsMove,
}
use mev_boost.Store.Locks.Responses.{
  Responses, response_hold, responses_ahead, ResponsesFit, ResponsesAfter, responses_laws,
  StoreMove-ResponsesMove,
}

-- An operation at once.
abbrev pub Atomic : Event → Store → Store → Type 0
Atomic (payload_got k r) s s' = (s' ≡ s) × (r ≡ get_execution_payload k s)
Atomic (payload_set now k p) s s' = s' ≡ set_execution_payload now k (some p) s
Atomic (responses_got id r) s s' = (s' ≡ s) × (r ≡ get_forkchoice_response id s)
Atomic (response_set now id url rid) s s' = s' ≡ set_forkchoice_response now id url rid s
Atomic (payloads_swept visits) s s' =
    (s' ≡ cleanup_payloads visits s) × Perm (keys s.payloads) (map (λ v. v.0) visits)
Atomic (responses_swept visits) s s' =
    (s' ≡ cleanup_responses visits s) × Perm (keys s.forkchoices) (map (λ v. v.0) visits)

-- The operations of a trace, one after the other.
pub data History : Store → List Event → Store → Type 0 where
  nothing : {s : Store} → History s [] s
  then :
      {s t u : Store} {e : Event} {es : List Event}
      → Atomic e s t
      → History t es u
      → History s (e ∷ es) u

abbrev AtMostOne : Option Event → Store → Store → Type 0
AtMostOne none s s' = s' ≡ s
AtMostOne (some e) s s' = Atomic e s s'

abbrev store_of : Payloads → Responses → Store
store_of p f = record { payloads = p; forkchoices = f }

both :
    (e : Option Event) (s : Store) (p : Payloads) (f : Responses)
    → PayloadsAfter e s.payloads p
    → ResponsesAfter e s.forkchoices f
    → AtMostOne e s (store_of p f)
unfolding get_execution_payload get_forkchoice_response set_execution_payload
    set_forkchoice_response cleanup_payloads cleanup_responses
both none s p f h k = cc
both (some (payload_got key r)) s p f h k = (cc, h.1)
both (some (payload_set now key payload)) s p f h k = cc
both (some (responses_got id r)) s p f h k = (cc, k.1)
both (some (response_set now id url rid)) s p f h k = cc
both (some (payloads_swept visits)) s p f h k = (cc, h.1)
both (some (responses_swept visits)) s p f h k = (cc, k.1)

pub record Follows (u : Machine) (b : Store) : Type 0 where
  pub payloads :
      Simulates payload_hold payloads_ahead PayloadsFit PayloadsAfter u.memory.payload_mutex
        u.memory.payloads u.goroutines b.payloads
  pub responses :
      Simulates response_hold responses_ahead ResponsesFit ResponsesAfter u.memory.forkchoice_mutex
        u.memory.forkchoices u.goroutines b.forkchoices

Begins-free : {t : Goroutine} → Begins t → (payload_hold t ≡ free) × (response_hold t ≡ free)
Begins-free (gets_payload k) = (refl, refl)
Begins-free (sets_payload k p) = (refl, refl)
Begins-free (gets_response id) = (refl, refl)
Begins-free (sets_response id url rid) = (refl, refl)
Begins-free cleans = (refl, refl)

MachineStep-Follows :
    {u v : Machine} {e : Option Event} (b : Store)
    → MachineStep u e v
    → Follows u b
    → (b' : Store) × AtMostOne e b b' × Follows v b'
MachineStep-Follows b (calls {s} {ts} {t} begins) f =
    let new = Begins-free begins in
    (
      b,
      refl,
      record {
        payloads = Simulates-new _ _ _ _ payloads_laws t ts new.0 f.payloads;
        responses = Simulates-new _ _ _ _ responses_laws t ts new.1 f.responses;
      },
    )
MachineStep-Follows {e} b (steps (goes {t} {t'} before after move)) f =
    let (p, after_p, follows_p) =
      Guarded-Simulates _ _ _ _ payloads_laws before t t' after b.payloads
        (StoreMove-PayloadsMove move) f.payloads in
    let (r, after_r, follows_r) =
      Guarded-Simulates _ _ _ _ responses_laws before t t' after b.forkchoices
        (StoreMove-ResponsesMove move) f.responses in
    (
      store_of p r,
      both e b p r after_p after_r,
      record { payloads = follows_p; responses = follows_r },
    )

History-and :
    (e : Option Event) (es : List Event) (s t u : Store)
    → AtMostOne e s t
    → History t es u
    → History s (and_event e es) u
History-and none es s t u a h = subst (λ r. History r es u) a h
History-and (some e) es s t u a h = then a h

pub MachineRun-Follows :
    {u v : Machine} {es : List Event} (b : Store)
    → MachineRun u es v
    → Follows u b
    → (c : Store) × History b es c × Follows v c
MachineRun-Follows b halts f = (b, nothing, f)
MachineRun-Follows b (and_then {w} {e} {es} step run) f =
    let (b', at_once, f') = MachineStep-Follows b step f in
    let (c, history, g) = MachineRun-Follows b' run f' in
    (c, History-and e es b b' c at_once history, g)

pub started-Follows : (s : Store) → Follows (started s) s
started-Follows s = record {
  payloads = unlocked-Simulates _ _ _ _ payloads_laws s.payloads;
  responses = unlocked-Simulates _ _ _ _ responses_laws s.forkchoices;
}

-- A store with what the goroutines have done of the changes that they have not finished.
abbrev pub with_unfinished : List Goroutine → Store → Store
with_unfinished ts s = record {
  payloads = all_ahead payload_hold payloads_ahead PayloadsFit PayloadsAfter ts s.payloads;
  forkchoices =
      all_ahead response_hold responses_ahead ResponsesFit ResponsesAfter ts s.forkchoices;
}

-- In every state that goroutines reach from a store s which call its operations, in any number and
-- order and with their moves interleaved, the maps in memory are those that the operations of the
-- trace leave if they happen at once, one after the other, from s on, with the parts that some
-- goroutines have done of a change and not finished. The trace has what each read gave and each
-- write and each of the two loops of a `Cleanup` did, in the order in which they did it.
pub linearizable :
    (s : Store) (es : List Event) (u : Machine)
    → MachineRun (started s) es u
    → (b : Store) × History s es b × (contents u.memory ≡ with_unfinished u.goroutines b)
linearizable s es u run =
    let (b, history, f) = MachineRun-Follows s run (started-Follows s) in (b, history, cc)
