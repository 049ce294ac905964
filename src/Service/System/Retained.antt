-- ===== src/Service/System/Retained.antt =====
-- Between two cleanups of the payloads none is lost, whatever the other calls do.
use mev_boost.Common.{
  ℕ, ◌≡◌, refl, sym, ap, ◌∙◌, inl, inr, String, none, some, List, [], ◌∷◌, Bool, ◌==◌, bytes_eq,
  Bool-cases,
}
use mev_boost.Types.{
  Hash, ExecutionPayloadWithTxRootV1, SignedBlindedBeaconBlock, BlindedBeaconBlock,
  BlindedBeaconBlockBodyPartial,
}
use mev_boost.Rpc.{Http, Param}
use mev_boost.Store.Interface.{StoreOps, StoreLaws}
use mev_boost.Service.{Env, returned, RelayService}
use mev_boost.Service.Forkchoice.{goroutine}
use mev_boost.Service.Forkchoice.Replies.{verdict, verdict-cases}
use mev_boost.Service.Header.Writes.{Write, process_reply_writes}
use mev_boost.Service.Propose.{body_block_hash}
use mev_boost.Service.System.{
  System, Call, answered, revealed, Arrival, Move, goroutine_runs, late_goroutine_runs,
  forkchoice_succeeds, forkchoice_fails, reply_comes, reply_crashes, header_succeeds, header_fails,
  relays_answer, relays_refuse, relays_crash, OneMoves, first, later, arrives, moves,
  cleans_responses, Reach, next, start_proposal,
}
use mev_boost.Service.System.Authentic.{stored-Authentic}
use mev_boost.Service.System.Authentic.Invariant.{Authentic}

module _ {Raw S : Type 0} (env : Env Raw) (ops : StoreOps S) where
  abbrev Holds : Hash → S → Type 0
  Holds k s = (p : ExecutionPayloadWithTxRootV1) × (ops.get_execution_payload k s ≡ some p)

  module _ (Request Response : Type 0) (m : RelayService) where
    -- A run without cleanups of payloads.
    pub data Uncleaned (s : System S) : System S → Type 0 where
      still : Uncleaned s s
      begins :
          {t : System S}
          → Uncleaned s t
          → (call : Call) → Arrival Request Response env ops m t call
          → Uncleaned s (record t { calls = call ∷ t.calls })
      goes_on :
          {t : System S} {s' : S} {calls' : List Call}
          → Uncleaned s t
          → OneMoves Request Response env ops m t.store t.calls s' calls'
          → Uncleaned s (record { store = s'; calls = calls' })
      responses_go :
          {t : System S}
          → Uncleaned s t
          → (visits : List (String × ℕ))
          → Uncleaned s (record t { store = ops.cleanup_responses visits t.store })

  module _ (laws : StoreLaws ops) where
    Write-Holds : (k : Hash) (now : ℕ) (s s' : S) → Write env ops now s s' → Holds k s → Holds k s'
    Write-Holds k now s s' w (p, found) =
        let stored = record w.payload { transactions_root = env.bytes_to_hash w.root } in
        let read =
          ap (ops.get_execution_payload k) w.written
          ∙ laws.get-set_payload now stored.block_hash k stored s in
        elim (Bool-cases (stored.block_hash == k)) [
          | inl same ↦ (stored, rw same at read)
          | inr other ↦ (p, (rw other at read) ∙ found)
        ]

    goroutine-Holds :
        {Request Response : Type 0} (k : Hash) (http : Http Raw Request Response) (now : String → ℕ)
        (boost_id : String) (args : List (Param Raw)) (url : String) (s s' : S)
        (valid valid' : Bool)
        → goroutine http env ops now boost_id args url (s, valid) ≡ returned (s', valid')
        → Holds k s
        → Holds k s'
    unfolding goroutine
    goroutine-Holds k http now boost_id args url s s' valid valid' e (p, found) =
        elim (verdict-cases (verdict http env args url)) [
          | inl crash ↦ absurd (cc (rw crash at e))
          | inr (inl silent) ↦ let same : s ≡ s' = cc (rw silent at e) in (p, rw (← same) found)
          | inr (inr (id, answer)) ↦
              let same : ops.set_forkchoice_response (now url) boost_id url (env.bytes_string id) s
                  ≡ s' =
                cc (rw answer at e) in
              (
                p,
                sym (ap (ops.get_execution_payload k) same)
                    ∙ laws.payload-set_response (now url) boost_id url (env.bytes_string id) k s
                    ∙ found,
              )
        ]

    module _ {Request Response : Type 0} (m : RelayService) (k : Hash) where
      Move-Holds :
          {s s' : S} {call call' : Call}
          → Move Request Response env ops m s call s' call'
          → Holds k s
          → Holds k s'
      Move-Holds (goroutine_runs http now args perm e) held =
          goroutine-Holds k http now _ args _ _ _ _ _ e held
      Move-Holds (late_goroutine_runs http now args valid valid' perm e) held =
          goroutine-Holds k http now _ args _ _ _ valid valid' e held
      Move-Holds forkchoice_succeeds held = held
      Move-Holds forkchoice_fails held = held
      Move-Holds (reply_comes now reply e) held =
          elim (process_reply_writes env ops now reply _ _ _ _ e) [
            | inl same ↦ (held.0, ap (ops.get_execution_payload k) same ∙ held.1)
            | inr w ↦ Write-Holds k now _ _ w held
          ]
      Move-Holds (reply_crashes now reply e) held = held
      Move-Holds (header_succeeds e) held = held
      Move-Holds (header_fails e) held = held
      Move-Holds (relays_answer replies e) held = held
      Move-Holds (relays_refuse replies e) held = held
      Move-Holds (relays_crash replies e) held = held

      OneMoves-Holds :
          {s s' : S} {calls calls' : List Call}
          → OneMoves Request Response env ops m s calls s' calls'
          → Holds k s
          → Holds k s'
      OneMoves-Holds (first move) held = Move-Holds move held
      OneMoves-Holds (later move) held = OneMoves-Holds move held

      Uncleaned-Holds :
          {s t : System S} → Uncleaned Request Response m s t → Holds k s.store → Holds k t.store
      Uncleaned-Holds still held = held
      Uncleaned-Holds (begins run call arrival) held = Uncleaned-Holds run held
      Uncleaned-Holds (goes_on run move) held = OneMoves-Holds move (Uncleaned-Holds run held)
      Uncleaned-Holds (responses_go {t = u} run visits) held =
          let (p, found) = Uncleaned-Holds run held in
          (p, laws.payload-cleanup_responses visits k u.store ∙ found)

  Uncleaned-Reach :
      {Request Response : Type 0} (m : RelayService) {w s t : System S}
      → Reach Request Response env ops m w s
      → Uncleaned Request Response m s t
      → Reach Request Response env ops m w t
  Uncleaned-Reach m before still = before
  Uncleaned-Reach m before (begins run call arrival) =
      next (Uncleaned-Reach m before run) (arrives call arrival)
  Uncleaned-Reach m before (goes_on run move) = next (Uncleaned-Reach m before run) (moves move)
  Uncleaned-Reach m before (responses_go run visits) =
      next (Uncleaned-Reach m before run) (cleans_responses visits)

  start_proposal-found :
      (block : SignedBlindedBeaconBlock Raw) (message : BlindedBeaconBlock Raw)
      (body : BlindedBeaconBlockBodyPartial) (p : ExecutionPayloadWithTxRootV1) (s : S)
      → block.message ≡ some message
      → env.unmarshal_body message.body ≡ some body
      → ops.get_execution_payload (env.hex_to_hash (body_block_hash body)) s ≡ some p
      → start_proposal env ops (some block) s
        ≡ answered (revealed (env.hex_to_hash (body_block_hash body)) p)
  unfolding start_proposal
  start_proposal-found block message body p s has_message has_body found =
      rw (has_message, start_proposal) (rw has_body (rw found refl))

module _ {Request Response Raw S : Type 0} (env : Env Raw) (ops : StoreOps S) (m : RelayService)
    (empty : S) (s t : System S) (block : SignedBlindedBeaconBlock Raw)
    (message : BlindedBeaconBlock Raw) (body : BlindedBeaconBlockBodyPartial)
    (p : ExecutionPayloadWithTxRootV1) where
  -- When the store of the running service has a payload for a block's hash, a proposal of that block
  -- is answered from the store in every later state until the payloads are cleaned up next, with any
  -- calls and cleanups of the responses interleaved and whatever the relays reply: with a payload that has the block's hash, transactions, and
  -- the root of those that decode. It is assumed that the service started from a store without payloads,
  -- and that the store keeps the laws of its interface.
  pub proposal-revealed :
      StoreLaws ops
      → ((k : Hash) → ops.get_execution_payload k empty ≡ none)
      → Reach Request Response env ops m (record { store = empty; calls = [] }) s
      → ops.get_execution_payload (env.hex_to_hash (body_block_hash body)) s.store ≡ some p
      → Uncleaned env ops Request Response m s t
      → block.message ≡ some message
      → env.unmarshal_body message.body ≡ some body
      → (q : ExecutionPayloadWithTxRootV1) × (start_proposal env ops (some block) t.store
          ≡ answered (revealed (env.hex_to_hash (body_block_hash body)) q))
        × Authentic env (env.hex_to_hash (body_block_hash body)) q
  proposal-revealed laws none_yet before found run has_message has_body =
      let k = env.hex_to_hash (body_block_hash body) in
      let (q, still_found) = Uncleaned-Holds env ops laws m k run (p, found) in
      (
        q,
        start_proposal-found env ops block message body q t.store has_message has_body still_found,
        stored-Authentic env ops m empty t laws none_yet (Uncleaned-Reach env ops m before run) k q
            still_found,
      )
