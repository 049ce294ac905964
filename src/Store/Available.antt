-- ===== src/Store/Available.antt =====
-- How long a stored payload can be revealed, in the runs of Store.Run.
use mev_boost.Common.{
  ℕ, ◌+◌, ◌*◌, ◌≤◌, ◌≡◌, refl, ◌∙◌, Option, none, some, arith, bytes_eq, ◌==◌, Bool-cases, inl, inr,
}
use mev_boost.Common.Map.{lookup, lookup-insert, lookup-insert_self}
use mev_boost.Types.{Hash, ExecutionPayloadWithTxRootV1}
use mev_boost.Store.{
  ExecutionPayloadContainer, second, is_expired, get_execution_payload, set_execution_payload,
  set_forkchoice_response,
}
use mev_boost.Store.Cleanup.{lookup-cleanup_payloads}
use mev_boost.Store.Run.{System, Step, pass, set_payload, set_response, wake_up, Reach, here, next}

-- Under the key there is a container of the time `since` or later.
abbrev HasSince : System → Hash → ℕ → Type 0
HasSince s k since =
    (c : ExecutionPayloadContainer) × (lookup k s.store.payloads ≡ some c) × (since ≤ c.added_at)

Step-clock : {s t : System} → Step s t → s.clock ≤ t.clock
Step-clock (pass n h) = omega arith
Step-clock (set_payload k p) = omega arith
Step-clock (set_response id url rid) = omega arith
Step-clock (wake_up h) = omega arith

set_payload-HasSince :
    (s : System) (k j : Hash) (p : Option ExecutionPayloadWithTxRootV1) (since : ℕ)
    → since ≤ s.clock
    → HasSince s k since
    → HasSince (record s { store = set_execution_payload s.clock j p s.store }) k since
unfolding set_execution_payload
set_payload-HasSince s k j none since le has = has
set_payload-HasSince s k j (some p) since le (c, found, late) =
    let new : ExecutionPayloadContainer = record { payload = p; added_at = s.clock } in
    let read = lookup-insert j k new s.store.payloads in
    elim (Bool-cases (j == k)) [
      | inl same ↦ (new, read ∙ rw same refl, le)
      | inr other ↦ (c, read ∙ rw other found, late)
    ]

Step-HasSince :
    {s t : System} (k : Hash) (since : ℕ)
    → Step s t
    → since ≤ s.clock
    → t.clock ≤ since + 768 * second
    → HasSince s k since
    → HasSince t k since
unfolding set_forkchoice_response is_expired
Step-HasSince {s} k since (pass n h) le young has = has
Step-HasSince {s} k since (set_payload j p) le young has = set_payload-HasSince s k j p since le has
Step-HasSince {s} k since (set_response id url rid) le young has = has
Step-HasSince {s} k since (wake_up h) le young (c, found, late) =
    (c, ground (arith, lookup-cleanup_payloads s.clock s.store k, found), late)

Reach-clock : {s t : System} → Reach s t → s.clock ≤ t.clock
Reach-clock here = omega arith
Reach-clock (next r st) = omega (arith, Reach-clock r, Step-clock st)

Reach-HasSince :
    {s t : System} (k : Hash) (since : ℕ)
    → Reach s t
    → since ≤ s.clock
    → t.clock ≤ since + 768 * second
    → HasSince s k since
    → HasSince t k since
Reach-HasSince k since here le young has = has
Reach-HasSince k since (next r st) le young has =
    Step-HasSince k since st (omega (arith, Reach-clock r)) young
      (Reach-HasSince k since r le (omega (arith, Step-clock st)) has)

-- A payload that is set at some time is not lost early: in every run from there on, with writes
-- under any key and with cleanups, and until 768 seconds have passed, the store has under its key
-- a container that was added at that time or later, whose payload `GetExecutionPayload` returns.
pub payload_available :
    (s t : System) (k : Hash) (p : ExecutionPayloadWithTxRootV1)
    → Reach (record s { store = set_execution_payload s.clock k (some p) s.store }) t
    → t.clock ≤ s.clock + 768 * second
    → (c : ExecutionPayloadContainer) × (lookup k t.store.payloads ≡ some c)
      × (s.clock ≤ c.added_at)
      × (get_execution_payload k t.store ≡ some c.payload)
unfolding get_execution_payload set_execution_payload
payload_available s t k p r young =
    let new : ExecutionPayloadContainer = record { payload = p; added_at = s.clock } in
    let (c, found, late) =
      Reach-HasSince k s.clock r (omega arith) young
        (new, lookup-insert_self k new s.store.payloads, omega arith) in
    (c, found, late, rw (get_execution_payload, found) refl)
