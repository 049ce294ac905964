-- ===== src/Service/System/Handlers/Steps.antt =====
-- The loops of the handlers, as steps of the running service in which only the youngest call moves.
use mathlib.Core.List.{Perm}
use mathlib.Core.List.Perm
use mev_boost.Common.{
  ℕ, zero, ◌≡◌, refl, sym, ◌∙◌, ◌⊎◌, inl, inr, String, Option, none, some, List, [], ◌∷◌, map, Bool,
  true, false, ◌==◌, bytes_eq, string_eq, length, Bool-cases, if◌then◌else◌,
}
use mev_boost.Common.Orders.{length-perm, length-map}
use mev_boost.Types.{Bytes, ExecutionPayloadWithTxRootV1, zero_payload, nil_hash}
use mev_boost.Rpc.{Http, Param, Reply}
use mev_boost.Store.Interface.{StoreOps}
use mev_boost.Service.{
  Env, Outcome, returned, panicked, ◌>>=◌, HandlerError, RelayService, no_valid_header,
}
use mev_boost.Service.Forkchoice.{goroutine, goroutines}
use mev_boost.Service.Header.{process_reply, process_replies, ask}
use mev_boost.Service.System.{
  System, Call, forkchoice, header, answered, Answer, best_header, refused, Move, goroutine_runs,
  reply_comes, header_succeeds, header_fails, first, moves, Reach, next,
}

pub Outcome-cases : {A : Type 0} (o : Outcome A) → (o ≡ panicked) ⊎ ((a : A) × (o ≡ returned a))
Outcome-cases panicked = inl refl
Outcome-cases (returned a) = inr (a, refl)

-- The answer, if there is no error.
abbrev pub unless_error : Option HandlerError → Answer → Answer
unless_error none a = a
unless_error (some e) a = refused e

-- Whether `ForkchoiceUpdatedV1` returns without an error.
abbrev pub succeeds : Option HandlerError → Bool
succeeds none = true
succeeds (some e) = false

module _ {Request Response Raw S : Type 0} (http : Http Raw Request Response) (env : Env Raw)
    (ops : StoreOps S) (m : RelayService) where
  -- The youngest call moves.
  pub young :
      {w : System S} {s s' : S} {call call' : Call} {calls : List Call}
      → Reach Request Response env ops m w (record { store = s; calls = call ∷ calls })
      → Move Request Response env ops m s call s' call'
      → Reach Request Response env ops m w (record { store = s'; calls = call' ∷ calls })
  young run move = next run (moves (first move))

  pub goroutines_run :
      (now : String → ℕ) (id : Bytes) (args : List (Param Raw)) {w : System S} {calls : List Call}
      (base urls : List String) (s s' : S) (valid valid' : Bool)
      → Perm base urls
      → goroutines http env ops now (env.bytes_string id) args urls (s, valid)
        ≡ returned (s', valid')
      → Reach Request Response env ops m w
          (record { store = s; calls = forkchoice id (length urls) base valid ∷ calls })
      → Reach Request Response env ops m w
          (record { store = s'; calls = forkchoice id zero [] valid' ∷ calls })
  unfolding goroutines
  goroutines_run now id args {w} {calls} base [] s s' valid valid' perm e run =
      let no_urls : base ≡ [] = Perm.eq-nil perm in
      let same : s ≡ s' = cc e in
      let same_test : valid ≡ valid' = cc e in rw (← same, ← same_test) (rw no_urls at run)
  goroutines_run now id args {w} {calls} base (url ∷ urls) s s' valid valid' perm e run =
      elim (Outcome-cases (goroutine http env ops now (env.bytes_string id) args url (s, valid))) [
        | inl crash ↦ absurd (cc (rw crash at e))
        | inr ((s₁, valid₁), ran) ↦
            goroutines_run now id args urls urls s₁ s' valid₁ valid' Perm.rfl (rw ran at e)
              (young run (goroutine_runs http now args perm ran))
      ]

  process_replies_run :
      (id : String) {w : System S} {calls : List Call} (replies : List (ℕ × Reply Raw)) (s s' : S)
      (r r' : ExecutionPayloadWithTxRootV1)
      → process_replies env ops replies (s, r) ≡ returned (s', r')
      → Reach Request Response env ops m w
          (record { store = s; calls = header id (length replies) r ∷ calls })
      → Reach Request Response env ops m w (record { store = s'; calls = header id 0 r' ∷ calls })
  unfolding process_replies
  process_replies_run id [] s s' r r' e run =
      let same : s ≡ s' = cc e in let same_result : r ≡ r' = cc e in rw (← same, ← same_result) run
  process_replies_run id ((now, reply) ∷ replies) s s' r r' e run =
      elim (Outcome-cases (process_reply env ops now reply (s, r))) [
        | inl crash ↦ absurd (cc (rw crash at e))
        | inr ((s₁, r₁), ran) ↦
            process_replies_run id replies s₁ s' r₁ r' (rw ran at e)
              (young run (reply_comes now reply ran))
      ]

  pub replies_Reach :
      (now : String → ℕ) (id : String) {w : System S} {calls : List Call}
      (order : List (String × String) → List (String × String)) (responses : List (String × String))
      (s s' : S) (r : ExecutionPayloadWithTxRootV1) (e : Option HandlerError)
      → Perm (order responses) responses
      → ◌>>=◌ {B = S × ExecutionPayloadWithTxRootV1 × Option HandlerError}
          (process_replies env ops (map (ask http env ops now) (order responses)) (s, zero_payload))
          (λ (t, r').
            if r'.block_hash == nil_hash
            then returned (t, r', some (no_valid_header id))
            else returned (t, r', none))
        ≡ returned (s', r, e)
      → Reach Request Response env ops m w
          (record { store = s; calls = header id (length responses) zero_payload ∷ calls })
      → Reach Request Response env ops m w
          (record { store = s'; calls = answered (unless_error e (best_header r)) ∷ calls })
  replies_Reach now id {w} {calls} order responses s s' r e perm returns run =
      let replies = map (ask http env ops now) (order responses) in
      let count : length responses ≡ length replies =
        sym (length-map (ask http env ops now) (order responses) ∙ length-perm perm) in
      elim (Outcome-cases (process_replies env ops replies (s, zero_payload))) [
        | inl crash ↦ absurd (cc (rw crash at returns))
        | inr ((s₁, r₁), ran) ↦
            let run' = process_replies_run id replies s s₁ zero_payload r₁ ran (rw count at run) in
            let after = rw ran at returns in
            elim (Bool-cases (r₁.block_hash == nil_hash)) [
              | inl missing ↦
                  let same : s₁ ≡ s' = cc (rw missing at after) in
                  let error : e ≡ some (no_valid_header id) = cc (rw missing at after) in
                  rw (error, ← same) (young run' (header_fails missing))
              | inr present ↦
                  let same : s₁ ≡ s' = cc (rw present at after) in
                  let best : r₁ ≡ r = cc (rw present at after) in
                  let no_error : e ≡ none = cc (rw present at after) in
                  rw (no_error, ← same, ← best) (young run' (header_succeeds present))
            ]
      ]
