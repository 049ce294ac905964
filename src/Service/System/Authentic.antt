-- ===== src/Service/System/Authentic.antt =====
-- What the store of the running service holds, and so what is revealed from it.
pub mod Invariant
use mathlib.Core.Path.{subst}
use mathlib.Core.List.{Memᴰ}
use mev_boost.Common.{
  ℕ, ◌≡◌, ◌≢◌, refl, sym, ap, ◌∙◌, ◌⊎◌, inl, inr, String, Option, none, some, List, [], ◌∷◌, Bool,
  true, false, ◌==◌, bytes_eq, arith, All, Option-cases, Bool-cases, if◌then◌else◌,
}
use mev_boost.Types.{Bytes, Hash, ExecutionPayloadWithTxRootV1, SignedBlindedBeaconBlock}
use mev_boost.Rpc.{Http, Reply, Param}
use mev_boost.Store.Interface.{StoreOps, StoreLaws}
use mev_boost.Txroot.Result.{ok}
use mev_boost.Txroot.Root.{transactions_root}
use mev_boost.Service.{Env, Outcome, returned, RelayService}
use mev_boost.Service.Forkchoice.{goroutine, reply_id}
use mev_boost.Service.Forkchoice.Replies.{verdict, verdict-cases}
use mev_boost.Service.Header.{byte_txs}
use mev_boost.Service.Header.Writes.{Write, process_reply_writes}
use mev_boost.Service.Propose.{body_block_hash}
use mev_boost.Service.System.{
  System, Call, forkchoice, forkchoice_answered, header, proposal, answered, crashed, Answer,
  best_header, revealed, relayed, refused, Arrival, forkchoice_begins, forkchoice_without_id,
  header_begins, proposal_begins, Move, goroutine_runs, late_goroutine_runs, forkchoice_succeeds,
  forkchoice_fails, reply_comes, reply_crashes, header_succeeds, header_fails, relays_answer,
  relays_refuse, relays_crash, OneMoves, first, later, Step, arrives, moves, cleans_payloads,
  cleans_responses, Reach, here, next, start_header, start_proposal,
}
use mev_boost.Service.System.Authentic.Invariant.{Authentic, Reach-Inv, truthful_member}

module _ {Request Response Raw S : Type 0} (env : Env Raw) (ops : StoreOps S) (m : RelayService)
    (s : S) (t : System S) where
  -- In every state that the service reaches from a store without payloads, with any number of calls
  -- of its three methods interleaved with each other and with cleanups, and whatever the relays
  -- reply, every payload in the store stands under its own block hash, has transactions, and has
  -- the root of those transactions that decode. It is assumed that the store keeps the laws of its
  -- interface.
  pub stored-Authentic :
      StoreLaws ops
      → ((k : Hash) → ops.get_execution_payload k s ≡ none)
      → Reach Request Response env ops m (record { store = s; calls = [] }) t
      → (k : Hash) (p : ExecutionPayloadWithTxRootV1) → ops.get_execution_payload k t.store ≡ some p
      → Authentic env k p
  stored-Authentic laws empty run k p found =
      (Reach-Inv env ops laws m run (λ j q q_found. absurd (cc (empty j, q_found)), tt)).0 k p found

  -- In the same states every payload that `ProposeBlindedBlockV1` has answered from the store has the
  -- block hash that was asked for, transactions, and the root of those that decode. It is assumed that
  -- the store keeps the laws of its interface.
  pub revealed-Authentic :
      StoreLaws ops
      → ((k : Hash) → ops.get_execution_payload k s ≡ none)
      → Reach Request Response env ops m (record { store = s; calls = [] }) t
      → (k : Hash) (p : ExecutionPayloadWithTxRootV1) → Memᴰ (answered (revealed k p)) t.calls
      → Authentic env k p
  revealed-Authentic laws empty run k p answer =
      truthful_member env
        (Reach-Inv env ops laws m run (λ j q q_found. absurd (cc (empty j, q_found)), tt)).1 answer
