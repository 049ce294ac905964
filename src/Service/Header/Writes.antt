-- ===== src/Service/Header/Writes.antt =====
-- What a reply to `GetPayloadHeaderV1` makes the handler write into the store.
use mev_boost.Common.{
  ℕ, ◌≡◌, refl, ◌∙◌, ◌⊎◌, inl, inr, String, some, List, arith, Option-cases, Bool-cases,
}
use mev_boost.Types.{Hash, ExecutionPayloadWithTxRootV1}
use mev_boost.Rpc.{Reply}
use mev_boost.Store.Interface.{StoreOps}
use mev_boost.Txroot.Result.{Result, ok, over_limit, panic, out_of_fuel}
use mev_boost.Txroot.Root.{transactions_root}
use mev_boost.Service.{Env, returned}
use mev_boost.Txroot.Root.Ends.{transactions_root-finishes}
use mev_boost.Service.Header.Root.{accept-none, accept-ok, accept-over_limit, accept-panic}
use mev_boost.Service.Header.{byte_txs, check_root, accept, process_reply, reply_payload, skips}
use mev_boost.Service.Header.Best.{offer-cases}

Result-cases :
    {A : Type 0} (r : Result A)
    → ((a : A) × (r ≡ ok a)) ⊎ (r ≡ over_limit) ⊎ ((r ≡ panic) ⊎ (r ≡ out_of_fuel))
Result-cases (ok a) = inl (a, refl)
Result-cases over_limit = inr (inl refl)
Result-cases panic = inr (inr (inl refl))
Result-cases out_of_fuel = inr (inr (inr refl))

-- The one write that `GetPayloadHeaderV1` makes for a reply: a payload with the computed root of its
-- transactions, under its block hash.
module _ {Raw S : Type 0} (env : Env Raw) (ops : StoreOps S) where
  pub record Write (now : ℕ) (s s' : S) : Type 0 where
    pub payload : ExecutionPayloadWithTxRootV1
    pub txs : List String
    pub root : Hash
    pub has_txs : payload.transactions ≡ some txs
    pub computed : transactions_root env.sha256 (byte_txs env txs) ≡ ok root
    pub written :
        s'
        ≡ ops.set_execution_payload now payload.block_hash
            (some (record payload { transactions_root = env.bytes_to_hash root }))
            s

  check_root_writes :
      (now : ℕ) (p : ExecutionPayloadWithTxRootV1) (root : Hash) (s : S)
      → ((check_root env ops now p root s).0 ≡ s)
        ⊎ ((check_root env ops now p root s).0
            ≡ ops.set_execution_payload now p.block_hash
                (some (record p { transactions_root = root }))
                s)
  unfolding check_root
  check_root_writes now p root s = ground arith

  accept_writes :
      (now : ℕ) (p : ExecutionPayloadWithTxRootV1) (s s' : S) (r : ExecutionPayloadWithTxRootV1)
      → accept env ops now p s ≡ returned (s', r)
      → (s' ≡ s) ⊎ Write now s s'
  accept_writes now p s s' r e = elim (Option-cases p.transactions) [
    | inl no_txs ↦ inl (cc (accept-none env ops now p s no_txs, e))
    | inr (txs, has_txs) ↦ elim (Result-cases (transactions_root env.sha256 (byte_txs env txs))) [
      | inl (root, computed) ↦
          let state : s' ≡ (check_root env ops now p (env.bytes_to_hash root) s).0 =
            cc (accept-ok env ops now p s txs has_txs root computed, e) in
          elim (check_root_writes now p (env.bytes_to_hash root) s) [
            | inl same ↦ inl (state ∙ same)
            | inr wrote ↦ inr (record {
              payload = p;
              txs = txs;
              root = root;
              has_txs = has_txs;
              computed = computed;
              written = state ∙ wrote;
            })
          ]
      | inr (inl over) ↦ inl (cc (accept-over_limit env ops now p s txs has_txs over, e))
      | inr (inr (inl crash)) ↦ absurd (cc (accept-panic env ops now p s txs has_txs crash, e))
      | inr (inr (inr stuck)) ↦
          absurd (cc (rw stuck at (transactions_root-finishes env.sha256 (byte_txs env txs))))
    ]
  ]

  pub process_reply_writes :
      (now : ℕ) (reply : Reply Raw) (s s' : S) (r r' : ExecutionPayloadWithTxRootV1)
      → process_reply env ops now reply (s, r) ≡ returned (s', r')
      → (s' ≡ s) ⊎ Write now s s'
  unfolding process_reply
  process_reply_writes now reply s s' r r' e = elim (offer-cases (reply_payload env reply)) [
    | inl crash ↦ absurd (cc (rw crash at e))
    | inr (inl silent) ↦ inl (cc (rw silent at e))
    | inr (inr (p, offered)) ↦ elim (Bool-cases (skips r.fee_recipient_diff p.fee_recipient_diff)) [
      | inl low ↦ inl (cc (rw low at (rw offered at e)))
      | inr above ↦ accept_writes now p s s' r' (rw above at (rw offered at e))
    ]
  ]
