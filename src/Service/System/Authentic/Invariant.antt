-- ===== src/Service/System/Authentic/Invariant.antt =====
-- Every step of the running service keeps that the store and the answers hold authentic payloads.
use mathlib.Core.Path.{subst}
use mathlib.Core.List.{Memᴰ}
use mev_boost.Common.{
  ℕ, ◌≡◌, refl, sym, ap, ◌∙◌, inl, inr, String, Option, none, some, List, Bool, ◌==◌, bytes_eq, All,
  Option-cases, Bool-cases, if◌then◌else◌,
}
use mev_boost.Types.{Hash, ExecutionPayloadWithTxRootV1, SignedBlindedBeaconBlock}
use mev_boost.Rpc.{Http, Param}
use mev_boost.Store.Interface.{StoreOps, StoreLaws}
use mev_boost.Txroot.Result.{ok}
use mev_boost.Txroot.Root.{transactions_root}
use mev_boost.Service.{Env, returned, RelayService}
use mev_boost.Service.Forkchoice.{goroutine}
use mev_boost.Service.Forkchoice.Replies.{verdict, verdict-cases}
use mev_boost.Service.Header.{byte_txs}
use mev_boost.Service.Header.Writes.{Write, process_reply_writes}
use mev_boost.Service.Propose.{body_block_hash}
use mev_boost.Service.System.{
  System, Call, forkchoice, forkchoice_answered, header, proposal, answered, crashed, Answer,
  best_header, revealed, relayed, refused, Arrival, forkchoice_begins, forkchoice_without_id,
  header_begins, proposal_begins, Move, goroutine_runs, late_goroutine_runs, forkchoice_succeeds,
  forkchoice_fails, reply_comes, reply_crashes, header_succeeds, header_fails, relays_answer,
  relays_refuse, relays_crash, OneMoves, first, later, Step, arrives, moves, cleans_payloads,
  cleans_responses, Reach, here, next, start_header, start_proposal,
}

module _ {Raw : Type 0} (env : Env Raw) where
  -- The payload has the block hash k, transactions, and their root.
  pub record Authentic (k : Hash) (p : ExecutionPayloadWithTxRootV1) : Type 0 where
    pub hash : p.block_hash ≡ k
    pub txs : List String
    pub has_txs : p.transactions ≡ some txs
    pub root : Hash
    pub computed : transactions_root env.sha256 (byte_txs env txs) ≡ ok root
    pub has_root : p.transactions_root ≡ env.bytes_to_hash root

  -- Only a payload of the store is said to be authentic.
  abbrev IsTruthful : Answer → Type 0
  IsTruthful (best_header r) = Unit
  IsTruthful (revealed k p) = Authentic k p
  IsTruthful (relayed p) = Unit
  IsTruthful (refused e) = Unit

  abbrev CallIsTruthful : Call → Type 0
  CallIsTruthful (forkchoice id wg urls valid) = Unit
  CallIsTruthful (forkchoice_answered id success urls) = Unit
  CallIsTruthful (header id left r) = Unit
  CallIsTruthful (proposal block_hash) = Unit
  CallIsTruthful (answered a) = IsTruthful a
  CallIsTruthful crashed = Unit

  module _ {S : Type 0} (ops : StoreOps S) where
    abbrev pub IsAuthentic : S → Type 0
    IsAuthentic s =
        (k : Hash) (p : ExecutionPayloadWithTxRootV1)
        → ops.get_execution_payload k s ≡ some p
        → Authentic k p

    abbrev Inv : System S → Type 0
    Inv s = IsAuthentic s.store × All CallIsTruthful s.calls

    module _ (laws : StoreLaws ops) where
      Write-IsAuthentic :
          (now : ℕ) (s s' : S) → Write env ops now s s' → IsAuthentic s → IsAuthentic s'
      Write-IsAuthentic now s s' w held k q found =
          let stored = record w.payload { transactions_root = env.bytes_to_hash w.root } in
          let read : (if stored.block_hash == k then some stored else ops.get_execution_payload k s)
              ≡ some q =
            sym (laws.get-set_payload now stored.block_hash k stored s)
            ∙ sym (ap (ops.get_execution_payload k) w.written)
            ∙ found in
          elim (Bool-cases (stored.block_hash == k)) [
            | inr other ↦ held k q (rw other at read)
            | inl same ↦
                let at_q : stored ≡ q = cc (rw same at read) in
                subst (Authentic k) at_q (record {
                  hash = (bytes_eq.beq_iff stored.block_hash k).0 same;
                  txs = w.txs;
                  has_txs = w.has_txs;
                  root = w.root;
                  computed = w.computed;
                  has_root = refl;
                })
          ]

      goroutine-IsAuthentic :
          {Request Response : Type 0} (http : Http Raw Request Response) (now : String → ℕ)
          (boost_id : String) (args : List (Param Raw)) (url : String) (s s' : S)
          (valid valid' : Bool)
          → goroutine http env ops now boost_id args url (s, valid) ≡ returned (s', valid')
          → IsAuthentic s
          → IsAuthentic s'
      unfolding goroutine
      goroutine-IsAuthentic http now boost_id args url s s' valid valid' e held k q found =
          elim (verdict-cases (verdict http env args url)) [
            | inl crash ↦ absurd (cc (rw crash at e))
            | inr (inl silent) ↦
                let same : s ≡ s' = cc (rw silent at e) in held k q (rw (← same) at found)
            | inr (inr (id, answer)) ↦
                let same : ops.set_forkchoice_response (now url) boost_id url (env.bytes_string id)
                      s
                    ≡ s' =
                  cc (rw answer at e) in
                held k q (
                  sym (laws.payload-set_response (now url) boost_id url (env.bytes_string id) k s)
                  ∙ ap (ops.get_execution_payload k) same
                  ∙ found)
          ]

      cleanup_payloads-IsAuthentic :
          (visits : List (Hash × ℕ)) (s : S)
          → IsAuthentic s
          → IsAuthentic (ops.cleanup_payloads visits s)
      cleanup_payloads-IsAuthentic visits s held k q found =
          elim (laws.payload-cleanup_payloads visits k s) [
            | inl gone ↦ absurd (cc (gone, found))
            | inr kept ↦ held k q (sym kept ∙ found)
          ]

      cleanup_responses-IsAuthentic :
          (visits : List (String × ℕ)) (s : S)
          → IsAuthentic s
          → IsAuthentic (ops.cleanup_responses visits s)
      cleanup_responses-IsAuthentic visits s held k q found =
          held k q (sym (laws.payload-cleanup_responses visits k s) ∙ found)

      start_header-CallIsTruthful :
          (args : String) (s : S) → CallIsTruthful (start_header env ops args s)
      unfolding start_header
      start_header-CallIsTruthful args s = elim (Option-cases (env.unmarshal_text args)) [
        | inl bad ↦ rw (bad, start_header) tt
        | inr (id, text) ↦
            elim (Option-cases (ops.get_forkchoice_response (env.bytes_string id) s)) [
              | inl absent ↦ rw (text, start_header) (rw absent tt)
              | inr (responses, found) ↦ rw (text, start_header) (rw found tt)
            ]
      ]

      start_proposal-CallIsTruthful :
          (args : Option (SignedBlindedBeaconBlock Raw)) (s : S)
          → IsAuthentic s
          → CallIsTruthful (start_proposal env ops args s)
      unfolding start_proposal
      start_proposal-CallIsTruthful none s held = tt
      start_proposal-CallIsTruthful (some args) s held = elim (Option-cases args.message) [
        | inl absent ↦ rw (absent, start_proposal) tt
        | inr (message, has_message) ↦ elim (Option-cases (env.unmarshal_body message.body)) [
          | inl bad ↦ rw (has_message, start_proposal) (rw bad tt)
          | inr (body, has_body) ↦
              let k = env.hex_to_hash (body_block_hash body) in
              elim (Option-cases (ops.get_execution_payload k s)) [
                | inl absent ↦ rw (has_message, start_proposal) (rw has_body (rw absent tt))
                | inr (p, found) ↦
                    rw (has_message, start_proposal) (rw has_body (rw found (held k p found)))
              ]
        ]
      ]

      Arrival-CallIsTruthful :
          {Request Response : Type 0} (m : RelayService) (s : System S) (call : Call)
          → Arrival Request Response env ops m s call
          → IsAuthentic s.store
          → CallIsTruthful call
      Arrival-CallIsTruthful m s call (forkchoice_begins id fresh) held = tt
      Arrival-CallIsTruthful m s call forkchoice_without_id held = tt
      Arrival-CallIsTruthful m s call (header_begins args) held =
          start_header-CallIsTruthful args s.store
      Arrival-CallIsTruthful m s call (proposal_begins args) held =
          start_proposal-CallIsTruthful args s.store held

      Move-IsAuthentic :
          {Request Response : Type 0} (m : RelayService) {s s' : S} {call call' : Call}
          → Move Request Response env ops m s call s' call'
          → IsAuthentic s
          → IsAuthentic s' × CallIsTruthful call'
      Move-IsAuthentic m (goroutine_runs http now args perm e) held =
          (goroutine-IsAuthentic http now _ args _ _ _ _ _ e held, tt)
      Move-IsAuthentic m (late_goroutine_runs http now args valid valid' perm e) held =
          (goroutine-IsAuthentic http now _ args _ _ _ valid valid' e held, tt)
      Move-IsAuthentic m forkchoice_succeeds held = (held, tt)
      Move-IsAuthentic m forkchoice_fails held = (held, tt)
      Move-IsAuthentic m (reply_comes now reply e) held =
          elim (process_reply_writes env ops now reply _ _ _ _ e) [
            | inl same ↦ (subst IsAuthentic (sym same) held, tt)
            | inr w ↦ (Write-IsAuthentic now _ _ w held, tt)
          ]
      Move-IsAuthentic m (reply_crashes now reply e) held = (held, tt)
      Move-IsAuthentic m (header_succeeds e) held = (held, tt)
      Move-IsAuthentic m (header_fails e) held = (held, tt)
      Move-IsAuthentic m (relays_answer replies e) held = (held, tt)
      Move-IsAuthentic m (relays_refuse replies e) held = (held, tt)
      Move-IsAuthentic m (relays_crash replies e) held = (held, tt)

      OneMoves-Inv :
          {Request Response : Type 0} (m : RelayService) {s s' : S} {calls calls' : List Call}
          → OneMoves Request Response env ops m s calls s' calls'
          → IsAuthentic s
          → All CallIsTruthful calls
          → IsAuthentic s' × All CallIsTruthful calls'
      OneMoves-Inv m (first move) held all =
          let (held', told) = Move-IsAuthentic m move held in (held', (told, all.1))
      OneMoves-Inv m (later move) held all =
          let (held', told) = OneMoves-Inv m move held all.1 in (held', (all.0, told))

      Step-Inv :
          {Request Response : Type 0} (m : RelayService) {s t : System S}
          → Step Request Response env ops m s t
          → Inv s
          → Inv t
      Step-Inv m {s} (arrives call arrival) inv =
          (inv.0, (Arrival-CallIsTruthful m s call arrival inv.0, inv.1))
      Step-Inv m (moves move) inv = OneMoves-Inv m move inv.0 inv.1
      Step-Inv m {s} (cleans_payloads visits) inv =
          (cleanup_payloads-IsAuthentic visits s.store inv.0, inv.1)
      Step-Inv m {s} (cleans_responses visits) inv =
          (cleanup_responses-IsAuthentic visits s.store inv.0, inv.1)

      pub Reach-Inv :
          {Request Response : Type 0} (m : RelayService) {s t : System S}
          → Reach Request Response env ops m s t
          → Inv s
          → Inv t
      Reach-Inv m here inv = inv
      Reach-Inv m (next r st) inv = Step-Inv m st (Reach-Inv m r inv)

  pub truthful_member :
      {call : Call} {calls : List Call}
      → All CallIsTruthful calls
      → Memᴰ call calls
      → CallIsTruthful call
  truthful_member all (Memᴰ.head e) = subst CallIsTruthful (sym e) all.0
  truthful_member all (Memᴰ.tail m) = truthful_member all.1 m
