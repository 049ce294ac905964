-- ===== src/Service/Header/Accept.antt =====
-- One reply in `GetPayloadHeaderV1`: what accepting its payload does to the result and the store.
use mathlib.Core.Path.{subst}
use mev_boost.Common.{
  ℕ, String, beq_refl, ◌≡◌, ◌≢◌, refl, ap, ◌∙◌, none, some, List, true, false, ◌||◌, ◌==◌, bytes_eq,
  ◌⊎◌, inl, inr, arith, Option-cases,
}
use mev_boost.Types.{Bytes, Hash, ExecutionPayloadWithTxRootV1, zero_payload, nil_hash}
use mev_boost.Payload.{unmarshal_json}
use mev_boost.Payload.Decoding.{unmarshal_json-Holds_iff}
use mev_boost.Rpc.{Reply}
use mev_boost.Store.Interface.{StoreOps, StoreLaws}
use mev_boost.Txroot.Result.{ok, over_limit}
use mev_boost.Txroot.Root.{transactions_root}
use mev_boost.Txroot.Merkle.Tree.{HashLaws}
use mev_boost.Txroot.Root.Correct.{transactions_root-ssz}
use mev_boost.Service.{Env, returned}
use mev_boost.Service.Header.Root.{accept-none, accept-ok, accept-over_limit}
use mev_boost.Service.Header.{byte_txs, reply_payload, check_root, accept}

-- The result has every field of the payload but the transactions and their root.
abbrev pub SameHeader : ExecutionPayloadWithTxRootV1 → ExecutionPayloadWithTxRootV1 → Type 0
SameHeader p r =
    r ≡ record p { transactions = r.transactions; transactions_root = r.transactions_root }

module _ {Raw S : Type 0} (env : Env Raw) (ops : StoreOps S) where
  -- `TransactionsRoot` neither panics nor runs on.
  root-cases :
      HashLaws env.sha256
      → (txs : List Bytes)
      → (transactions_root env.sha256 txs ≡ over_limit)
        ⊎ ((root : Hash) × (transactions_root env.sha256 txs ≡ ok root))
  root-cases laws txs = ground (arith, transactions_root-ssz env.sha256 laws txs)

  check_root-SameHeader :
      (now : ℕ) (p : ExecutionPayloadWithTxRootV1) (root : Hash) (s : S)
      → SameHeader p (check_root env ops now p root s).1
  unfolding check_root
  check_root-SameHeader now p root s = ground arith

  -- Accepting a payload ends, and the result has its header.
  pub accept-SameHeader :
      HashLaws env.sha256
      → (now : ℕ) (p : ExecutionPayloadWithTxRootV1) (s : S)
      → (r : S × ExecutionPayloadWithTxRootV1) × (accept env ops now p s ≡ returned r)
        × SameHeader p r.1
  accept-SameHeader laws now p s = elim (Option-cases p.transactions) [
    | inl no_txs ↦ ((s, p), accept-none env ops now p s no_txs, refl)
    | inr (txs, has_txs) ↦ elim (root-cases laws (byte_txs env txs)) [
      | inl over ↦ ((s, p), accept-over_limit env ops now p s txs has_txs over, refl)
      | inr (root, e) ↦ (
        check_root env ops now p (env.bytes_to_hash root) s,
        accept-ok env ops now p s txs has_txs root e,
        check_root-SameHeader now p (env.bytes_to_hash root) s,
      )
    ]
  ]

  pub accepted-SameHeader :
      HashLaws env.sha256
      → (now : ℕ) (p : ExecutionPayloadWithTxRootV1) (s s' : S) (r : ExecutionPayloadWithTxRootV1)
      → accept env ops now p s ≡ returned (s', r)
      → SameHeader p r
  accepted-SameHeader laws now p s s' r e =
      let (t, done, same) = accept-SameHeader laws now p s in
      let same_state : t ≡ (s', r) = cc (done, e) in subst (λ u. SameHeader p u.1) same_state same

  -- The payload of a reply was unmarshalled from the result of the response.
  pub reply_payload-decoded :
      (reply : Reply Raw) (p : ExecutionPayloadWithTxRootV1)
      → reply_payload env reply ≡ returned (some p)
      → (raw : Raw) × (unmarshal_json env.codec raw zero_payload ≡ (p, none))
  unfolding reply_payload
  reply_payload-decoded reply p e = elim (Option-cases reply.res) [
    | inl no_res ↦ absurd (ground (arith, no_res, e))
    | inr (res, has_res) ↦ (res.result, ground (arith, has_res, e))
  ]

  -- A payload that was unmarshalled has its feeRecipientDiff.
  pub reply_payload-fee :
      (reply : Reply Raw) (p : ExecutionPayloadWithTxRootV1)
      → reply_payload env reply ≡ returned (some p)
      → p.fee_recipient_diff ≢ none
  reply_payload-fee reply p e =
      let (raw, read) = reply_payload-decoded reply p e in
      let (dec, found, held) = (unmarshal_json-Holds_iff env.codec raw zero_payload p).0 read in
      held.fee_recipient_diff.1

  -- The payload has transactions, their root is computed, and a root that the relay declared is
  -- the computed one.
  pub record Verified (p : ExecutionPayloadWithTxRootV1) : Type 0 where
    pub txs : List String
    pub root : Hash
    pub has_txs : p.transactions ≡ some txs
    pub computed : transactions_root env.sha256 (byte_txs env txs) ≡ ok root
    pub declared :
        (p.transactions_root == nil_hash || env.bytes_to_hash root == p.transactions_root) ≡ true

  -- The store holds, under the header's block hash, a payload with transactions that is the header
  -- otherwise.
  pub record Revealable (s : S) (r : ExecutionPayloadWithTxRootV1) : Type 0 where
    pub payload : ExecutionPayloadWithTxRootV1
    pub stored : ops.get_execution_payload r.block_hash s ≡ some payload
    pub has_txs : payload.transactions ≢ none
    pub header : r ≡ record payload { transactions = none }

  check_root-declared :
      (now : ℕ) (p : ExecutionPayloadWithTxRootV1) (root : Hash) (s : S)
      → (p.transactions_root == nil_hash || root == p.transactions_root) ≡ true
      → check_root env ops now p root s ≡ (
        ops.set_execution_payload now p.block_hash (some (record p { transactions_root = root })) s,
        record p { transactions_root = root; transactions = none },
      )
  unfolding check_root
  check_root-declared now p root s declared = ground (arith, declared)

  -- Accepting a payload whose root is right leaves it in the store under its block hash.
  pub accept-Revealable :
      StoreLaws ops
      → (now : ℕ) (p : ExecutionPayloadWithTxRootV1) (s s' : S) (r : ExecutionPayloadWithTxRootV1)
      → Verified p
      → accept env ops now p s ≡ returned (s', r)
      → Revealable s' r
  accept-Revealable laws now p s s' r v e =
      let q = record p { transactions_root = env.bytes_to_hash v.root } in
      let done : accept env ops now p s
          ≡ returned (
            ops.set_execution_payload now p.block_hash (some q) s,
            record q { transactions = none },
          ) =
        accept-ok env ops now p s v.txs v.has_txs v.root v.computed
        ∙ ap (λ o. returned o)
            (check_root-declared now p (env.bytes_to_hash v.root) s v.declared) in
      let state : s' ≡ ops.set_execution_payload now p.block_hash (some q) s = cc (done, e) in
      let header : r ≡ record q { transactions = none } = cc (done, e) in
      record {
        payload = q;
        stored =
            rw
              (
                state,
                header,
                laws.get-set_payload now p.block_hash p.block_hash q s,
                beq_refl p.block_hash,
              )
              refl;
        has_txs = cc (v.has_txs);
        header = header;
      }

  -- The relay declared a root that is not that of the payload's transactions.
  pub record Mismatched (p : ExecutionPayloadWithTxRootV1) : Type 0 where
    pub txs : List String
    pub root : Hash
    pub has_txs : p.transactions ≡ some txs
    pub computed : transactions_root env.sha256 (byte_txs env txs) ≡ ok root
    pub declared : (p.transactions_root == nil_hash) ≡ false
    pub differs : (env.bytes_to_hash root == p.transactions_root) ≡ false

  check_root-mismatch :
      (now : ℕ) (p : ExecutionPayloadWithTxRootV1) (root : Hash) (s : S)
      → (p.transactions_root == nil_hash) ≡ false
      → (root == p.transactions_root) ≡ false
      → check_root env ops now p root s ≡ (s, p)
  unfolding check_root
  check_root-mismatch now p root s declared differs = ground (arith, declared, differs)

  -- Such a payload is the result all the same, with its transactions.
  pub accept-Mismatched :
      (now : ℕ) (p : ExecutionPayloadWithTxRootV1) (s s' : S) (r : ExecutionPayloadWithTxRootV1)
      → Mismatched p
      → accept env ops now p s ≡ returned (s', r)
      → r ≡ p
  accept-Mismatched now p s s' r m e =
      let done : accept env ops now p s ≡ returned (s, p) =
        accept-ok env ops now p s m.txs m.has_txs m.root m.computed
        ∙ ap (λ o. returned o)
            (check_root-mismatch now p (env.bytes_to_hash m.root) s m.declared m.differs) in
      cc (done, e)
