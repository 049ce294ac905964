-- ===== src/Store/Locks/Responses.antt =====
-- The forkchoice responses of lib/store.go and their mutex: what each move of a goroutine is to
-- them.
use mathlib.Core.List.{Perm}
use mathlib.Core.Path.{subst}
use mev_boost.Common.{
  ℕ, ◌≡◌, refl, sym, ap, ◌∙◌, inl, inr, String, Option, none, some, [], ◌++◌, map, append-nil,
  bytes_eq, string_eq, arith, Option-cases,
}
use mev_boost.Common.Map.{GoMap, lookup, insert, keys, insert-insert, lookup-insert_self}
use mev_boost.Store.{
  Store, ForkchoiceResponseContainer, get_forkchoice_response, set_forkchoice_response,
  new_forkchoice_response_container, container_or_new, sweep, visit_response, sweep_responses,
}
use mev_boost.Store.Mutex.{
  Hold, free, waiting, writing, reading, stays, announces, enters, unlocks, r_locks, r_unlocks,
}
use mev_boost.Store.Mutex.Counts.{is_writing}
use mev_boost.Store.Mutex.Guarded.{GuardLaws, Guarded, locks, acts}
use mev_boost.Store.Locks.{
  LockedStore, Goroutine, Event, make_container, write_response, get_response_locked,
  get_response_read, set_response_waiting, set_response_locked, set_response_made,
  set_response_written, clean_responses_waiting, clean_responses_locked, cleaning_responses,
  responses_cleaned, payload_got, payload_set, responses_got, response_set, payloads_swept,
  responses_swept,
}
use mev_boost.Store.Locks.Sweeps.{sweep-visit, visited}
use mev_boost.Store.Locks.Moves.{
  StoreMove, get_response_locks, get_response_reads, get_response_unlocks, set_response_announces,
  set_response_locks, set_response_makes, set_response_writes, set_response_unlocks,
  clean_responses_announces, clean_responses_locks, clean_responses_ranges, clean_responses_visits,
  clean_responses_ends, clean_responses_unlocks,
}

abbrev pub Responses : Type 0
Responses = GoMap String ForkchoiceResponseContainer

abbrev pub response_hold : Goroutine → Hold
response_hold t = elim t [
  | get_response_locked id ↦ reading
  | get_response_read r ↦ reading
  | set_response_waiting id url rid ↦ waiting
  | set_response_locked id url rid ↦ writing
  | set_response_made now id url rid ↦ writing
  | set_response_written ↦ writing
  | clean_responses_waiting ↦ waiting
  | clean_responses_locked ↦ writing
  | cleaning_responses done left ↦ writing
  | responses_cleaned ↦ writing
  | _ ↦ free
]

-- The container that it has made, or what it has removed so far.
abbrev pub responses_ahead : Goroutine → Responses → Responses
responses_ahead t m = elim t [
  | set_response_made now id url rid ↦ make_container now id m
  | cleaning_responses done left ↦ sweep_responses done m
  | _ ↦ m
]

-- The visits so far and those to come are the keys that were there.
abbrev pub ResponsesFit : Goroutine → Responses → Type 0
ResponsesFit t m = elim t [
  | cleaning_responses done left ↦ Perm (keys m) (map (λ v. v.0) done ++ left)
  | _ ↦ Unit
]

abbrev pub responses_store : Responses → Store
responses_store m = record { payloads = []; forkchoices = m }

abbrev pub ResponsesAfter : Option Event → Responses → Responses → Type 0
ResponsesAfter none m m' = m' ≡ m
ResponsesAfter (some (payload_got k r)) m m' = m' ≡ m
ResponsesAfter (some (payload_set now k p)) m m' = m' ≡ m
ResponsesAfter (some (responses_got id r)) m m' =
    (m' ≡ m) × (r ≡ get_forkchoice_response id (responses_store m))
ResponsesAfter (some (response_set now id url rid)) m m' =
    m' ≡ (set_forkchoice_response now id url rid (responses_store m)).forkchoices
ResponsesAfter (some (payloads_swept visits)) m m' = m' ≡ m
ResponsesAfter (some (responses_swept visits)) m m' =
    (m' ≡ sweep_responses visits m) × Perm (keys m) (map (λ v. v.0) visits)

responses_same :
    (t : Goroutine) (m : Responses) → is_writing (response_hold t) ≡ 0 → responses_ahead t m ≡ m
responses_same (set_response_made now id url rid) m h = absurd (omega arith)
responses_same (cleaning_responses done left) m h = absurd (omega arith)
responses_same _ m h = refl

responses_fit :
    (t : Goroutine) (m : Responses) → is_writing (response_hold t) ≡ 0 → ResponsesFit t m
responses_fit (cleaning_responses done left) m h = absurd (omega arith)
responses_fit _ m h = tt

pub responses_laws : GuardLaws response_hold responses_ahead ResponsesFit ResponsesAfter
responses_laws = record { same = responses_same; fits = responses_fit }

pub write_response-some :
    (id url rid : String) (m : Responses) (c : ForkchoiceResponseContainer)
    → lookup id m ≡ some c
    → write_response id url rid m
      ≡ some (insert id (record c { payload = insert url rid c.payload }) m)
unfolding write_response
write_response-some id url rid m c e = rw (e, write_response) refl

pub make_container_found :
    (now : ℕ) (id : String) (m : Responses) (c : ForkchoiceResponseContainer)
    → lookup id m ≡ some c
    → make_container now id m ≡ m
unfolding make_container
make_container_found now id m c e = rw (e, make_container) refl

pub make_container_new :
    (now : ℕ) (id : String) (m : Responses)
    → lookup id m ≡ none
    → make_container now id m ≡ insert id (new_forkchoice_response_container now) m
unfolding make_container
make_container_new now id m e = rw (e, make_container) refl

set_response_as :
    (now : ℕ) (id url rid : String) (m : Responses) (c : ForkchoiceResponseContainer)
    → container_or_new now (lookup id m) ≡ c
    → (set_forkchoice_response now id url rid (responses_store m)).forkchoices
      ≡ insert id (record c { payload = insert url rid c.payload }) m
unfolding set_forkchoice_response
set_response_as now id url rid m c e =
    ap (λ d. insert id (record d { payload = insert url rid d.payload }) m) e

-- A container is there when its entry is written, and both writes are `SetForkchoiceResponse`.
pub write_response-make_container :
    (now : ℕ) (id url rid : String) (m : Responses)
    → write_response id url rid (make_container now id m)
      ≡ some (set_forkchoice_response now id url rid (responses_store m)).forkchoices
write_response-make_container now id url rid m = elim (Option-cases (lookup id m)) [
  | inl e ↦
      let c = new_forkchoice_response_container now in
      ap (write_response id url rid) (make_container_new now id m e)
      ∙ write_response-some id url rid (insert id c m) c (lookup-insert_self id c m)
      ∙ ap some (
          insert-insert id c _ m
          ∙ sym (set_response_as now id url rid m c (ap (container_or_new now) e)))
  | inr (c, e) ↦
      ap (write_response id url rid) (make_container_found now id m c e)
      ∙ write_response-some id url rid m c e
      ∙ ap some (sym (set_response_as now id url rid m c (ap (container_or_new now) e)))
]

abbrev pub ResponsesMove : LockedStore → Goroutine → Option Event → LockedStore → Goroutine → Type 0
ResponsesMove s t e s' t' =
    Guarded response_hold responses_ahead ResponsesFit ResponsesAfter s.forkchoice_mutex
      s.forkchoices t e s'.forkchoice_mutex s'.forkchoices t'

pub StoreMove-ResponsesMove :
    {s s' : LockedStore} {t t' : Goroutine} {e : Option Event}
    → StoreMove s t e s' t'
    → ResponsesMove s t e s' t'
unfolding get_forkchoice_response sweep
StoreMove-ResponsesMove (get_response_locks x) =
    locks (r_locks x) (λ a. refl) (λ a h. h) (λ a. refl)
StoreMove-ResponsesMove {s} (get_response_reads {id}) =
    acts (inr refl) refl
      λ a e f. (a, (refl, ap (λ m. get_forkchoice_response id (responses_store m)) e), e, tt)
StoreMove-ResponsesMove get_response_unlocks = locks r_unlocks (λ a. refl) (λ a h. h) (λ a. refl)
StoreMove-ResponsesMove (set_response_announces x) =
    locks (announces x) (λ a. refl) (λ a h. h) (λ a. refl)
StoreMove-ResponsesMove (set_response_locks x) = locks (enters x) (λ a. refl) (λ a h. h) (λ a. refl)
StoreMove-ResponsesMove (set_response_makes {id} {url} {rid} now) =
    acts (inl refl) refl λ a e f. (a, refl, ap (make_container now id) e, tt)
StoreMove-ResponsesMove (set_response_writes {now} {id} {url} {rid} {m} w) =
    acts (inl refl) refl λ a e f.
      let after = (set_forkchoice_response now id url rid (responses_store a)).forkchoices in
      let both = write_response-make_container now id url rid a in (after, refl, cc, tt)
StoreMove-ResponsesMove set_response_unlocks = locks unlocks (λ a. refl) (λ a h. h) (λ a. refl)
StoreMove-ResponsesMove (clean_responses_announces x) =
    locks (announces x) (λ a. refl) (λ a h. h) (λ a. refl)
StoreMove-ResponsesMove (clean_responses_locks x) =
    locks (enters x) (λ a. refl) (λ a h. h) (λ a. refl)
StoreMove-ResponsesMove (clean_responses_ranges ks order) =
    acts (inl refl) refl λ a e f. (a, refl, e, subst (λ m. Perm (keys m) ks) e order)
StoreMove-ResponsesMove (clean_responses_visits {done} {k} {ks} now) = acts (inl refl) refl λ a e f.
    (
      a,
      refl,
      ap (visit_response (k, now)) e ∙ sym (sweep-visit (λ c. c.added_at) done (k, now) a),
      subst (Perm (keys a)) (visited done (k, now) ks) f,
    )
StoreMove-ResponsesMove (clean_responses_ends {done}) =
    acts (inl refl) refl
      λ a e f. (sweep_responses done a, (refl, subst (Perm (keys a)) (append-nil _) f), e, tt)
StoreMove-ResponsesMove clean_responses_unlocks = locks unlocks (λ a. refl) (λ a h. h) (λ a. refl)
StoreMove-ResponsesMove _ = locks stays (λ a. refl) (λ a h. h) (λ a. refl)
