-- ===== src/Service/System.antt =====
-- The running service: any number of calls of lib/service.go at once over one store, beside the
-- cleanup. A step is what happens under one mutex of the store, or between two uses of it; what the
-- relays reply is arbitrary at each step. A call that panics ends without an answer, but a panic
-- of a goroutine of `ForkchoiceUpdatedV1` ends the process, so no step follows it.
use mathlib.Core.List.{Perm}
use mev_boost.Common.{
  ℕ, zero, suc, ◌≡◌, String, Option, none, some, List, [], ◌∷◌, Bool, true, false, ◌==◌, string_eq,
  bytes_eq, length,
}
use mev_boost.Common.Map.{contains}
use mev_boost.Types.{
  Bytes, Hash, ExecutionPayloadWithTxRootV1, zero_payload, nil_hash, SignedBlindedBeaconBlock,
}
use mev_boost.Rpc.{Http, Param, Reply}
use mev_boost.Store.Interface.{StoreOps}
use mev_boost.Service.{
  Env, returned, panicked, HandlerError, RelayService, rand_failed, no_valid_relay_response,
  nil_block, bad_body, bad_payload_id, no_forkchoice_responses, no_valid_header,
}
use mev_boost.Service.Forkchoice.{goroutine}
use mev_boost.Service.Header.{process_reply}
use mev_boost.Service.Propose.{body_block_hash, await_replies}
pub mod Authentic
pub mod Frozen
pub mod Handlers
pub mod Retained

-- What a call ends with. `revealed` is a payload of the store for the block hash that was asked
-- for, `relayed` one of a relay.
pub data Answer : Type 0 where
  best_header : ExecutionPayloadWithTxRootV1 → Answer
  revealed : Hash → ExecutionPayloadWithTxRootV1 → Answer
  relayed : ExecutionPayloadWithTxRootV1 → Answer
  refused : HandlerError → Answer

-- The states of a call: `forkchoice` with the boost payload id, the counter of `wg`, the relays
-- whose goroutines have not run and `hasValidResponse`; `forkchoice_answered` when the handler has
-- returned, with the boost payload id, with whether there was a valid response, and with the relays whose
-- goroutines have not run even then; `header` with the payload id, the number of replies to come and
-- `*result`; `proposal` with the block hash, while the relays are asked.
pub data Call : Type 0 where
  forkchoice : Bytes → ℕ → List String → Bool → Call
  forkchoice_answered : Bytes → Bool → List String → Call
  header : String → ℕ → ExecutionPayloadWithTxRootV1 → Call
  proposal : String → Call
  answered : Answer → Call
  crashed : Call

pub record System (S : Type 0) : Type 0 where
  pub store : S
  pub calls : List Call

module _ {Raw S : Type 0} (env : Env Raw) (ops : StoreOps S) where
  -- `GetPayloadHeaderV1` up to its first reply, and `ProposeBlindedBlockV1` up to its first call of
  -- a relay.
  unfoldable pub start_header : String → S → Call
  start_header args s = elim (env.unmarshal_text args) [
    | none ↦ answered (refused bad_payload_id)
    | some payload_id ↦
        let id = env.bytes_string payload_id in
        elim (ops.get_forkchoice_response id s) [
          | none ↦ answered (refused (no_forkchoice_responses id))
          | some responses ↦ header id (length responses) zero_payload
        ]
  ]

  unfoldable pub start_proposal : Option (SignedBlindedBeaconBlock Raw) → S → Call
  start_proposal none s = answered (refused nil_block)
  start_proposal (some args) s = elim args.message [
    | none ↦ answered (refused nil_block)
    | some message ↦ elim (env.unmarshal_body message.body) [
      | none ↦ answered (refused bad_body)
      | some body ↦
          let block_hash = body_block_hash body in
          elim (ops.get_execution_payload (env.hex_to_hash block_hash) s) [
            | some cached ↦ answered (revealed (env.hex_to_hash block_hash) cached)
            | none ↦ proposal block_hash
          ]
    ]
  ]

-- The boost payload id of a call of `ForkchoiceUpdatedV1` that is running, or has goroutines that
-- are, or was successful.
abbrev pub owned : Call → Option Bytes
owned (forkchoice id wg urls valid) = some id
owned (forkchoice_answered id true urls) = some id
owned (forkchoice_answered id false []) = none
owned (forkchoice_answered id false (url ∷ urls)) = some id
owned (header id left r) = none
owned (proposal block_hash) = none
owned (answered a) = none
owned crashed = none

abbrev pub with_id : (Bytes → String) → Option Bytes → List String → List String
with_id string none ids = ids
with_id string (some id) ids = string id ∷ ids

abbrev pub ids_of : (Bytes → String) → List Call → List String
ids_of string [] = []
ids_of string (call ∷ calls) = with_id string (owned call) (ids_of string calls)

module _ (Request Response : Type 0) {Raw S : Type 0} (env : Env Raw) (ops : StoreOps S)
    (m : RelayService) where
  -- How a call begins. The random boost payload id is none that is in use.
  pub data Arrival (s : System S) : Call → Type 0 where
    forkchoice_begins :
        (id : Bytes)
        → contains (env.bytes_string id) (ids_of env.bytes_string s.calls) ≡ false
        → Arrival s (forkchoice id (length m.relay_urls) m.relay_urls false)
    forkchoice_without_id : Arrival s (answered (refused rand_failed))
    header_begins : (args : String) → Arrival s (start_header env ops args s.store)
    proposal_begins :
        (args : Option (SignedBlindedBeaconBlock Raw))
        → Arrival s (start_proposal env ops args s.store)

  -- What a call does next, to the store and to itself. A goroutine ends with `wg.Done()`; the handler
  -- goes on when the counter of `wg` is zero, and goroutines may outlive it.
  pub data Move (s : S) : Call → S → Call → Type 0 where
    goroutine_runs :
        {id : Bytes} {wg : ℕ} {urls rest : List String} {url : String} {valid valid' : Bool}
        {s' : S} (http : Http Raw Request Response) (now : String → ℕ) (args : List (Param Raw))
        → Perm urls (url ∷ rest)
        → goroutine http env ops now (env.bytes_string id) args url (s, valid)
          ≡ returned (s', valid')
        → Move s (forkchoice id (suc wg) urls valid) s' (forkchoice id wg rest valid')
    late_goroutine_runs :
        {id : Bytes} {success : Bool} {urls rest : List String} {url : String} {s' : S}
        (http : Http Raw Request Response) (now : String → ℕ) (args : List (Param Raw))
        (valid valid' : Bool)
        → Perm urls (url ∷ rest)
        → goroutine http env ops now (env.bytes_string id) args url (s, valid)
          ≡ returned (s', valid')
        → Move s (forkchoice_answered id success urls) s' (forkchoice_answered id success rest)
    forkchoice_succeeds :
        {id : Bytes} {urls : List String}
        → Move s (forkchoice id zero urls true) s (forkchoice_answered id true urls)
    forkchoice_fails :
        {id : Bytes} {urls : List String}
        → Move s (forkchoice id zero urls false) s (forkchoice_answered id false urls)
    reply_comes :
        {id : String} {left : ℕ} {r r' : ExecutionPayloadWithTxRootV1} {s' : S} (now : ℕ)
        (reply : Reply Raw)
        → process_reply env ops now reply (s, r) ≡ returned (s', r')
        → Move s (header id (suc left) r) s' (header id left r')
    reply_crashes :
        {id : String} {left : ℕ} {r : ExecutionPayloadWithTxRootV1} (now : ℕ) (reply : Reply Raw)
        → process_reply env ops now reply (s, r) ≡ panicked
        → Move s (header id (suc left) r) s crashed
    header_succeeds :
        {id : String} {r : ExecutionPayloadWithTxRootV1}
        → (r.block_hash == nil_hash) ≡ false
        → Move s (header id zero r) s (answered (best_header r))
    header_fails :
        {id : String} {r : ExecutionPayloadWithTxRootV1}
        → (r.block_hash == nil_hash) ≡ true
        → Move s (header id zero r) s (answered (refused (no_valid_header id)))
    relays_answer :
        {block_hash : String} {r : ExecutionPayloadWithTxRootV1} (replies : List (Reply Raw))
        → await_replies env block_hash replies false zero_payload ≡ returned (r, none)
        → Move s (proposal block_hash) s (answered (relayed r))
    relays_refuse :
        {block_hash : String} {r : ExecutionPayloadWithTxRootV1} {e : HandlerError}
        (replies : List (Reply Raw))
        → await_replies env block_hash replies false zero_payload ≡ returned (r, some e)
        → Move s (proposal block_hash) s (answered (refused e))
    relays_crash :
        {block_hash : String} (replies : List (Reply Raw))
        → await_replies env block_hash replies false zero_payload ≡ panicked
        → Move s (proposal block_hash) s crashed

  -- One of the calls moves.
  pub data OneMoves (s : S) : List Call → S → List Call → Type 0 where
    first :
        {call call' : Call} {calls : List Call} {s' : S}
        → Move s call s' call'
        → OneMoves s (call ∷ calls) s' (call' ∷ calls)
    later :
        {call : Call} {calls calls' : List Call} {s' : S}
        → OneMoves s calls s' calls'
        → OneMoves s (call ∷ calls) s' (call ∷ calls')

  pub data Step (s : System S) : System S → Type 0 where
    arrives : (call : Call) → Arrival s call → Step s (record s { calls = call ∷ s.calls })
    moves :
        {s' : S} {calls' : List Call}
        → OneMoves s.store s.calls s' calls'
        → Step s (record { store = s'; calls = calls' })
    cleans_payloads :
        (visits : List (Hash × ℕ))
        → Step s (record s { store = ops.cleanup_payloads visits s.store })
    cleans_responses :
        (visits : List (String × ℕ))
        → Step s (record s { store = ops.cleanup_responses visits s.store })

  pub data Reach (s : System S) : System S → Type 0 where
    here : Reach s s
    next : {t u : System S} → Reach s t → Step t u → Reach s u
