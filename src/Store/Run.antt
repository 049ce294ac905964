-- ===== src/Store/Run.antt =====
-- `NewStoreWithCleanup`: the store beside the goroutine that cleans it up, as a step relation.
-- `wake` is when the goroutine's sleep ends. A timer that fires on time is an assumption of the
-- relation: the clock does not pass `wake` before the cleanup has run.
use mathlib.Core.Option
use mev_boost.Common.{
  ℕ, ◌+◌, ◌*◌, ◌≤◌, ◌≡◌, refl, String, Option, none, some, arith, bytes_eq, string_eq,
}
use mev_boost.Common.Map.{lookup, insert, lookup-insert}
use mev_boost.Types.{Hash, ExecutionPayloadWithTxRootV1}
use mev_boost.Store.{
  Store, ExecutionPayloadContainer, ForkchoiceResponseContainer, container_or_new, new_store,
  second, cleanup_loop_interval, is_expired, set_execution_payload, set_forkchoice_response,
  cleanup,
}
use mev_boost.Store.Cleanup.{lookup-cleanup_payloads, lookup-cleanup_forkchoices}
use text.Mathlib.TextEquality.{eq_iff}

pub record System : Type 0 where
  pub store : Store
  pub clock : ℕ
  pub wake : ℕ

abbrev pub new_store_with_cleanup : ℕ → System
new_store_with_cleanup now = record {
  store = new_store;
  clock = now;
  wake = now + cleanup_loop_interval;
}

pub data Step (s : System) : System → Type 0 where
  pass : (n : ℕ) → s.clock + n ≤ s.wake → Step s (record s { clock = s.clock + n })
  set_payload :
      (k : Hash) (p : Option ExecutionPayloadWithTxRootV1)
      → Step s (record s { store = set_execution_payload s.clock k p s.store })
  set_response :
      (id url rid : String)
      → Step s (record s { store = set_forkchoice_response s.clock id url rid s.store })
  wake_up :
      s.clock ≡ s.wake
      → Step s
          (record s { store = cleanup s.clock s.store; wake = s.clock + cleanup_loop_interval })

pub data Reach (s : System) : System → Type 0 where
  here : Reach s s
  next : {t u : System} → Reach s t → Step t u → Reach s u

-- Added no later than now, and not yet too old at the last cleanup.
abbrev IsRetained : System → ℕ → Type 0
IsRetained s added_at =
    (added_at ≤ s.clock) × (s.wake ≤ added_at + 768 * second + cleanup_loop_interval)

record IsFresh (s : System) : Type 0 where
  on_time : (s.clock ≤ s.wake) × (s.wake ≤ s.clock + cleanup_loop_interval)
  payloads :
      (k : Hash) (c : ExecutionPayloadContainer)
      → lookup k s.store.payloads ≡ some c
      → IsRetained s c.added_at
  forkchoices :
      (id : String) (c : ForkchoiceResponseContainer)
      → lookup id s.store.forkchoices ≡ some c
      → IsRetained s c.added_at

pass-IsFresh :
    (s : System) (n : ℕ)
    → s.clock + n ≤ s.wake
    → IsFresh s
    → IsFresh (record s { clock = s.clock + n })
pass-IsFresh s n h f = record {
  on_time = (h, omega (arith, f.on_time.1));
  payloads = λ k c e. let r = f.payloads k c e in (omega (arith, r.0), r.1);
  forkchoices = λ id c e. let r = f.forkchoices id c e in (omega (arith, r.0), r.1);
}

set_payload-IsFresh :
    (s : System) (k : Hash) (p : Option ExecutionPayloadWithTxRootV1)
    → IsFresh s
    → IsFresh (record s { store = set_execution_payload s.clock k p s.store })
unfolding set_execution_payload
set_payload-IsFresh s k none f = f
set_payload-IsFresh s k (some p) f = record {
  on_time = f.on_time;
  payloads = λ j c e. ground (
    arith,
    lookup-insert k j (record { payload = p; added_at = s.clock }) s.store.payloads,
    f.payloads j c,
    f.on_time.1,
  );
  forkchoices = f.forkchoices;
}

set_response-IsFresh :
    (s : System) (id url rid : String)
    → IsFresh s
    → IsFresh (record s { store = set_forkchoice_response s.clock id url rid s.store })
unfolding set_forkchoice_response
set_response-IsFresh s id url rid f = record {
  on_time = f.on_time;
  payloads = f.payloads;
  forkchoices = λ j c e.
      let old = container_or_new s.clock (lookup id s.store.forkchoices) in
      let new : ForkchoiceResponseContainer = record old { payload = insert url rid old.payload } in
      ground (
        arith,
        lookup-insert id j new s.store.forkchoices,
        f.forkchoices j c,
        f.forkchoices id old,
        f.on_time.1,
        eq_iff id j,
      );
}

wake_up-IsFresh :
    (s : System)
    → s.clock ≡ s.wake
    → IsFresh s
    → IsFresh (record s { store = cleanup s.clock s.store; wake = s.clock + cleanup_loop_interval })
unfolding is_expired
wake_up-IsFresh s h f = record {
  on_time = (omega arith, omega arith);
  payloads = λ k c e. ground (arith, lookup-cleanup_payloads s.clock s.store k, f.payloads k c);
  forkchoices =
      λ id c e. ground (arith, lookup-cleanup_forkchoices s.clock s.store id, f.forkchoices id c);
}

Step-IsFresh : {s t : System} → Step s t → IsFresh s → IsFresh t
Step-IsFresh {s} (pass n h) f = pass-IsFresh s n h f
Step-IsFresh {s} (set_payload k p) f = set_payload-IsFresh s k p f
Step-IsFresh {s} (set_response id url rid) f = set_response-IsFresh s id url rid f
Step-IsFresh {s} (wake_up h) f = wake_up-IsFresh s h f

new_store-IsFresh : (now : ℕ) → IsFresh (new_store_with_cleanup now)
unfolding lookup
new_store-IsFresh now = record {
  on_time = (omega arith, omega arith);
  payloads = λ k c e. cc;
  forkchoices = λ id c e. cc;
}

Reach-IsFresh : {s t : System} → Reach s t → IsFresh s → IsFresh t
Reach-IsFresh here f = f
Reach-IsFresh (next r st) f = Step-IsFresh st (Reach-IsFresh r f)

-- An entry, if there is one, was added at most 1068 seconds ago, and not in the future.
abbrev pub IsRecent : ℕ → Option ℕ → Type 0
IsRecent now none = Unit
IsRecent now (some added_at) = (added_at ≤ now) × (now ≤ added_at + 1068 * second)

retained-IsRecent :
    {V : Type 0} (added_at : V → ℕ) (s : System) (entry : Option V)
    → IsFresh s
    → ((c : V) → entry ≡ some c → IsRetained s (added_at c))
    → IsRecent s.clock (Option.map added_at entry)
retained-IsRecent added_at s none f kept = tt
retained-IsRecent added_at s (some c) f kept =
    let q = kept c refl in (q.0, omega (arith, q.1, f.on_time.0))

-- From an empty store with the cleanup goroutine, after any sequence of writes, passing time and
-- cleanups that start on time, every payload in the store was added at most 768 seconds and one
-- cleanup interval (300 seconds) ago, and not in the future, and every container of forkchoice
-- responses was made then, whenever its last response came.
pub retention :
    (start : ℕ) (s : System) (k : Hash) (id : String)
    → Reach (new_store_with_cleanup start) s
    → IsRecent s.clock (Option.map (λ c. c.added_at) (lookup k s.store.payloads))
      × IsRecent s.clock (Option.map (λ c. c.added_at) (lookup id s.store.forkchoices))
retention start s k id r =
    let f = Reach-IsFresh r (new_store-IsFresh start) in
    (
      retained-IsRecent (λ c. c.added_at) s (lookup k s.store.payloads) f (f.payloads k),
      retained-IsRecent (λ c. c.added_at) s (lookup id s.store.forkchoices) f (f.forkchoices id),
    )
