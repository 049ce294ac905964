-- ===== src/Service/System/Frozen.antt =====
-- The responses to a call of `ForkchoiceUpdatedV1` are not written any more when it has returned.
pub mod Ids
pub mod Moves
pub mod Waits
use mathlib.Core.Path.{subst}
use mathlib.Core.List.{Memᴰ}
use mev_boost.Common.{
  ℕ, ◌≡◌, ◌≢◌, refl, sym, ap, ◌∙◌, ◌⊎◌, inl, inr, String, Option, none, some, List, [], ◌∷◌, Bool,
  true, false, All, ◌||◌, ◌==◌, string_eq, arith, Bool-cases, Option-cases, beq_refl,
}
use mev_boost.Common.Map.{GoMap, contains}
use mev_boost.Types.{Bytes, Hash, ExecutionPayloadWithTxRootV1, SignedBlindedBeaconBlock}
use mev_boost.Store.Interface.{StoreOps, StoreLaws}
use mev_boost.Service.{Env, returned, RelayService}
use mev_boost.Rpc.{Http, Reply, Param}
use mev_boost.Service.Forkchoice.{goroutine}
use mev_boost.Service.Forkchoice.Replies.{verdict, verdict-cases}
use mev_boost.Service.Header.{process_reply}
use mev_boost.Service.Header.Writes.{process_reply_writes}
use mev_boost.Service.Propose.{body_block_hash}
use mev_boost.Service.System.Frozen.Ids.{
  Distinct, IsWaited, writes, any_writes, contains-with_id, answered_silent,
}
use mev_boost.Service.System.Frozen.Moves.{Kept, Kept-trans, OneMoves-Quiet, OneMoves-Shrinks}
use mev_boost.Service.System.Frozen.Waits.{OneMoves-IsWaited, no_goroutine_left}
use mev_boost.Service.System.{
  System, Call, forkchoice, forkchoice_answered, header, proposal, answered, crashed, Answer,
  best_header, revealed, relayed, refused, owned, with_id, ids_of, Arrival, Move, OneMoves, first,
  later, Step, arrives, moves, cleans_payloads, cleans_responses, Reach, here, next,
  forkchoice_begins, forkchoice_without_id, header_begins, proposal_begins, goroutine_runs,
  late_goroutine_runs, forkchoice_succeeds, forkchoice_fails, reply_comes, reply_crashes,
  header_succeeds, header_fails, relays_answer, relays_refuse, relays_crash, start_header,
  start_proposal,
}
use text.Mathlib.TextEquality.{eq_iff}

module _ {Raw S : Type 0} (env : Env Raw) (ops : StoreOps S) (laws : StoreLaws ops)
    (m : RelayService) where
  abbrev IsSilent : Call → Type 0
  IsSilent call =
      (owned call ≡ none) × ((b : String) → writes env.bytes_string b call ≡ false) × IsWaited call

  start_header-IsSilent : (args : String) (s : S) → IsSilent (start_header env ops args s)
  unfolding start_header
  start_header-IsSilent args s = elim (Option-cases (env.unmarshal_text args)) [
    | inl bad ↦ rw (bad, start_header) (refl, λ b. refl, tt)
    | inr (id, text) ↦ elim (Option-cases (ops.get_forkchoice_response (env.bytes_string id) s)) [
      | inl absent ↦ rw (text, start_header) (rw absent (refl, λ b. refl, tt))
      | inr (responses, found) ↦ rw (text, start_header) (rw found (refl, λ b. refl, tt))
    ]
  ]

  start_proposal-IsSilent :
      (args : Option (SignedBlindedBeaconBlock Raw)) (s : S)
      → IsSilent (start_proposal env ops args s)
  unfolding start_proposal
  start_proposal-IsSilent none s = (refl, λ b. refl, tt)
  start_proposal-IsSilent (some args) s = elim (Option-cases args.message) [
    | inl absent ↦ rw (absent, start_proposal) (refl, λ b. refl, tt)
    | inr (message, has_message) ↦ elim (Option-cases (env.unmarshal_body message.body)) [
      | inl bad ↦ rw (has_message, start_proposal) (rw bad (refl, λ b. refl, tt))
      | inr (body, has_body) ↦
          let k = env.hex_to_hash (body_block_hash body) in
          elim (Option-cases (ops.get_execution_payload k s)) [
            | inl absent ↦
                rw (has_message, start_proposal) (rw has_body (rw absent (refl, λ b. refl, tt)))
            | inr (p, found) ↦
                rw (has_message, start_proposal) (rw has_body (rw found (refl, λ b. refl, tt)))
          ]
    ]
  ]

  Arrival-quiet :
      {Request Response : Type 0} (s : System S) (call : Call) (b : String)
      → Arrival Request Response env ops m s call
      → contains b (ids_of env.bytes_string s.calls) ≡ true
      → writes env.bytes_string b call ≡ false
  Arrival-quiet s call b (forkchoice_begins id fresh) has =
      ground (arith, eq_iff (env.bytes_string id) b, fresh, has)
  Arrival-quiet s call b forkchoice_without_id has = refl
  Arrival-quiet s call b (header_begins args) has = (start_header-IsSilent args s.store).1 b
  Arrival-quiet s call b (proposal_begins args) has = (start_proposal-IsSilent args s.store).1 b

  Arrival-Distinct :
      {Request Response : Type 0} (s : System S) (call : Call)
      → Arrival Request Response env ops m s call
      → Distinct (ids_of env.bytes_string s.calls)
      → Distinct (with_id env.bytes_string (owned call) (ids_of env.bytes_string s.calls))
  Arrival-Distinct s call (forkchoice_begins id fresh) d = (fresh, d)
  Arrival-Distinct s call forkchoice_without_id d = d
  Arrival-Distinct s call (header_begins args) d = rw (start_header-IsSilent args s.store).0 d
  Arrival-Distinct s call (proposal_begins args) d = rw (start_proposal-IsSilent args s.store).0 d

  Step-Distinct :
      {Request Response : Type 0} {s t : System S}
      → Step Request Response env ops m s t
      → Distinct (ids_of env.bytes_string s.calls)
      → Distinct (ids_of env.bytes_string t.calls)
  Step-Distinct {s} (arrives call arrival) d = Arrival-Distinct s call arrival d
  Step-Distinct (moves move) d = (OneMoves-Shrinks env ops laws m move).distinct d
  Step-Distinct (cleans_payloads visits) d = d
  Step-Distinct (cleans_responses visits) d = d

  Arrival-IsWaited :
      {Request Response : Type 0} (s : System S) (call : Call)
      → Arrival Request Response env ops m s call
      → IsWaited call
  Arrival-IsWaited s call (forkchoice_begins id fresh) = refl
  Arrival-IsWaited s call forkchoice_without_id = tt
  Arrival-IsWaited s call (header_begins args) = (start_header-IsSilent args s.store).2
  Arrival-IsWaited s call (proposal_begins args) = (start_proposal-IsSilent args s.store).2

  Step-IsWaited :
      {Request Response : Type 0} {s t : System S}
      → Step Request Response env ops m s t
      → All IsWaited s.calls
      → All IsWaited t.calls
  Step-IsWaited {s} (arrives call arrival) all = (Arrival-IsWaited s call arrival, all)
  Step-IsWaited (moves move) all = OneMoves-IsWaited env ops m move all
  Step-IsWaited (cleans_payloads visits) all = all
  Step-IsWaited (cleans_responses visits) all = all

  Reach-IsWaited :
      {Request Response : Type 0} {s t : System S}
      → Reach Request Response env ops m s t
      → All IsWaited s.calls
      → All IsWaited t.calls
  Reach-IsWaited here all = all
  Reach-IsWaited (next r st) all = Step-IsWaited st (Reach-IsWaited r all)

  Reach-Distinct :
      {Request Response : Type 0} {s t : System S}
      → Reach Request Response env ops m s t
      → Distinct (ids_of env.bytes_string s.calls)
      → Distinct (ids_of env.bytes_string t.calls)
  Reach-Distinct here d = d
  Reach-Distinct (next r st) d = Step-Distinct st (Reach-Distinct r d)

  -- Nobody writes under b, and b is in use.
  record IsDone (b : String) (s : System S) : Type 0 where
    silent : any_writes env.bytes_string b s.calls ≡ false
    in_use : contains b (ids_of env.bytes_string s.calls) ≡ true

  Step-IsDone :
      {Request Response : Type 0} {s t : System S} (b : String)
      → Step Request Response env ops m s t
      → IsDone b s
      → IsDone b t × Kept env ops laws m b s.store t.store
  Step-IsDone {s} b (arrives call arrival) done = (
    record {
      silent = rw (Arrival-quiet s call b arrival done.in_use) done.silent;
      in_use = ground (
        arith,
        done.in_use,
        contains-with_id env.bytes_string b (owned call) (ids_of env.bytes_string s.calls),
      );
    },
    inr refl,
  )
  Step-IsDone b (moves move) done =
      let q = OneMoves-Quiet env ops laws m b move done.silent in
      (record { silent = q.silent; in_use = q.id done.in_use }, q.kept)
  Step-IsDone {s} b (cleans_payloads visits) done = (
    record { silent = done.silent; in_use = done.in_use },
    inr (laws.responses-cleanup_payloads visits b s.store),
  )
  Step-IsDone {s} b (cleans_responses visits) done = (
    record { silent = done.silent; in_use = done.in_use },
    laws.responses-cleanup_responses visits b s.store,
  )

  Reach-IsDone :
      {Request Response : Type 0} {s t : System S} (b : String)
      → Reach Request Response env ops m s t
      → IsDone b s
      → IsDone b t × Kept env ops laws m b s.store t.store
  Reach-IsDone b here done = (done, inr refl)
  Reach-IsDone b (next r st) done =
      let (mid, kept) = Reach-IsDone b r done in
      let (last, kept') = Step-IsDone b st mid in
      (last, Kept-trans env ops laws m b _ _ _ kept kept')

module _ {Request Response Raw S : Type 0} (env : Env Raw) (ops : StoreOps S) (m : RelayService)
    (start s t : System S) (id : Bytes) (urls : List String) where
  -- When `ForkchoiceUpdatedV1` has answered with a boost payload id, none of its goroutines is left,
  -- and the responses of the relays under that id are not written any more: in every later state,
  -- with any calls interleaved and whatever the relays reply, they are what they were, or a cleanup
  -- has removed them. It is assumed that the service started without calls, that the random id of a
  -- call is none that is in use, which is a condition of a call's beginning, and that the store keeps
  -- the laws of its interface.
  pub answered_id-Kept :
      StoreLaws ops
      → start.calls ≡ []
      → Reach Request Response env ops m start s
      → Memᴰ (forkchoice_answered id true urls) s.calls
      → Reach Request Response env ops m s t
      → (urls ≡ [])
        × ((ops.get_forkchoice_response (env.bytes_string id) t.store ≡ none)
            ⊎ (ops.get_forkchoice_response (env.bytes_string id) t.store
                ≡ ops.get_forkchoice_response (env.bytes_string id) s.store))
  answered_id-Kept laws fresh before answer after =
      let distinct = Reach-Distinct env ops laws m before (rw fresh tt) in
      let waited = Reach-IsWaited env ops laws m before (rw fresh tt) in
      let (silent, in_use) =
        answered_silent env.bytes_string id urls s.calls distinct waited answer in
      (
        no_goroutine_left waited answer,
        (Reach-IsDone env ops laws m (env.bytes_string id) after
            (record { silent = silent; in_use = in_use })).1,
      )
