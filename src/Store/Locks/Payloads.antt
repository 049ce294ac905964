-- ===== src/Store/Locks/Payloads.antt =====
-- The payloads of lib/store.go and their mutex: what each move of a goroutine is to them.
use mathlib.Core.List.{Perm}
use mathlib.Core.Path.{subst}
use mev_boost.Common.{
  ◌≡◌, refl, sym, ap, ◌∙◌, inl, inr, Option, none, some, [], ◌++◌, map, append-nil, bytes_eq,
  string_eq, arith,
}
use mev_boost.Common.Map.{GoMap, insert, keys}
use mev_boost.Types.{Hash}
use mev_boost.Store.{
  ExecutionPayloadContainer, get_execution_payload, sweep, visit_payload, sweep_payloads,
}
use mev_boost.Store.Mutex.{
  Hold, free, waiting, writing, reading, stays, announces, enters, unlocks, r_locks, r_unlocks,
}
use mev_boost.Store.Mutex.Counts.{is_writing}
use mev_boost.Store.Mutex.Guarded.{GuardLaws, Guarded, locks, acts}
use mev_boost.Store.Locks.{
  LockedStore, Goroutine, Event, get_payload_locked, get_payload_read, set_payload_waiting,
  set_payload_locked, set_payload_written, clean_payloads_waiting, clean_payloads_locked,
  cleaning_payloads, payloads_cleaned, payload_got, payload_set, responses_got, response_set,
  payloads_swept, responses_swept,
}
use mev_boost.Store.Locks.Sweeps.{sweep-visit, visited}
use mev_boost.Store.Locks.Moves.{
  StoreMove, get_payload_locks, get_payload_reads, get_payload_unlocks, set_payload_announces,
  set_payload_locks, set_payload_writes, set_payload_unlocks, clean_payloads_announces,
  clean_payloads_locks, clean_payloads_ranges, clean_payloads_visits, clean_payloads_ends,
  clean_payloads_unlocks,
}

abbrev pub Payloads : Type 0
Payloads = GoMap Hash ExecutionPayloadContainer

abbrev pub payload_hold : Goroutine → Hold
payload_hold t = elim t [
  | get_payload_locked k ↦ reading
  | get_payload_read r ↦ reading
  | set_payload_waiting k p ↦ waiting
  | set_payload_locked k p ↦ writing
  | set_payload_written ↦ writing
  | clean_payloads_waiting ↦ waiting
  | clean_payloads_locked ↦ writing
  | cleaning_payloads done left ↦ writing
  | payloads_cleaned ↦ writing
  | _ ↦ free
]

-- What it has removed so far.
abbrev pub payloads_ahead : Goroutine → Payloads → Payloads
payloads_ahead t m = elim t [ cleaning_payloads done left ↦ sweep_payloads done m | _ ↦ m ]

-- The visits so far and those to come are the keys that were there.
abbrev pub PayloadsFit : Goroutine → Payloads → Type 0
PayloadsFit t m = elim t [
  | cleaning_payloads done left ↦ Perm (keys m) (map (λ v. v.0) done ++ left)
  | _ ↦ Unit
]

abbrev pub PayloadsAfter : Option Event → Payloads → Payloads → Type 0
PayloadsAfter none m m' = m' ≡ m
PayloadsAfter (some (payload_got k r)) m m' =
    (m' ≡ m) × (r ≡ get_execution_payload k (record { payloads = m; forkchoices = [] }))
PayloadsAfter (some (payload_set now k p)) m m' =
    m' ≡ insert k (record { payload = p; added_at = now }) m
PayloadsAfter (some (responses_got id r)) m m' = m' ≡ m
PayloadsAfter (some (response_set now id url rid)) m m' = m' ≡ m
PayloadsAfter (some (payloads_swept visits)) m m' =
    (m' ≡ sweep_payloads visits m) × Perm (keys m) (map (λ v. v.0) visits)
PayloadsAfter (some (responses_swept visits)) m m' = m' ≡ m

payloads_same :
    (t : Goroutine) (m : Payloads) → is_writing (payload_hold t) ≡ 0 → payloads_ahead t m ≡ m
payloads_same (cleaning_payloads done left) m h = absurd (omega arith)
payloads_same _ m h = refl

payloads_fit : (t : Goroutine) (m : Payloads) → is_writing (payload_hold t) ≡ 0 → PayloadsFit t m
payloads_fit (cleaning_payloads done left) m h = absurd (omega arith)
payloads_fit _ m h = tt

pub payloads_laws : GuardLaws payload_hold payloads_ahead PayloadsFit PayloadsAfter
payloads_laws = record { same = payloads_same; fits = payloads_fit }

abbrev pub PayloadsMove : LockedStore → Goroutine → Option Event → LockedStore → Goroutine → Type 0
PayloadsMove s t e s' t' =
    Guarded payload_hold payloads_ahead PayloadsFit PayloadsAfter s.payload_mutex s.payloads t e
      s'.payload_mutex s'.payloads t'

pub StoreMove-PayloadsMove :
    {s s' : LockedStore} {t t' : Goroutine} {e : Option Event}
    → StoreMove s t e s' t'
    → PayloadsMove s t e s' t'
unfolding get_execution_payload sweep
StoreMove-PayloadsMove (get_payload_locks x) = locks (r_locks x) (λ a. refl) (λ a h. h) (λ a. refl)
StoreMove-PayloadsMove {s} (get_payload_reads {k}) = acts (inr refl) refl λ a e f. (
  a,
  (refl, ap (λ m. get_execution_payload k (record { payloads = m; forkchoices = [] })) e),
  e,
  tt,
)
StoreMove-PayloadsMove get_payload_unlocks = locks r_unlocks (λ a. refl) (λ a h. h) (λ a. refl)
StoreMove-PayloadsMove (set_payload_announces x) =
    locks (announces x) (λ a. refl) (λ a h. h) (λ a. refl)
StoreMove-PayloadsMove (set_payload_locks x) = locks (enters x) (λ a. refl) (λ a h. h) (λ a. refl)
StoreMove-PayloadsMove (set_payload_writes {k} {p} now) = acts (inl refl) refl λ a e f.
    let c : ExecutionPayloadContainer = record { payload = p; added_at = now } in
    (insert k c a, refl, ap (insert k c) e, tt)
StoreMove-PayloadsMove set_payload_unlocks = locks unlocks (λ a. refl) (λ a h. h) (λ a. refl)
StoreMove-PayloadsMove (clean_payloads_announces x) =
    locks (announces x) (λ a. refl) (λ a h. h) (λ a. refl)
StoreMove-PayloadsMove (clean_payloads_locks x) =
    locks (enters x) (λ a. refl) (λ a h. h) (λ a. refl)
StoreMove-PayloadsMove (clean_payloads_ranges ks order) =
    acts (inl refl) refl λ a e f. (a, refl, e, subst (λ m. Perm (keys m) ks) e order)
StoreMove-PayloadsMove (clean_payloads_visits {done} {k} {ks} now) = acts (inl refl) refl λ a e f. (
  a,
  refl,
  ap (visit_payload (k, now)) e ∙ sym (sweep-visit (λ c. c.added_at) done (k, now) a),
  subst (Perm (keys a)) (visited done (k, now) ks) f,
)
StoreMove-PayloadsMove (clean_payloads_ends {done}) =
    acts (inl refl) refl
      λ a e f. (sweep_payloads done a, (refl, subst (Perm (keys a)) (append-nil _) f), e, tt)
StoreMove-PayloadsMove clean_payloads_unlocks = locks unlocks (λ a. refl) (λ a h. h) (λ a. refl)
StoreMove-PayloadsMove _ = locks stays (λ a. refl) (λ a h. h) (λ a. refl)
