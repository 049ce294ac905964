-- ===== src/Service/Header/Choice.antt =====
-- `GetPayloadHeaderV1` as a whole: which header it returns, and what it leaves in the store.
use mathlib.Core.List.{Mem, Perm}
use mathlib.Core.List.Perm
use mev_boost.Common.{
  ℕ, String, ◌≡◌, refl, ap, ◌∙◌, ◌⊎◌, inl, inr, Option, none, some, List, Bool, true, false, ◌==◌,
  bytes_eq, if◌then◌else◌, arith,
}
use mev_boost.Common.Orders.{any, any-perm, any-mem}
use mev_boost.Types.{Bytes, ExecutionPayloadWithTxRootV1, zero_payload, nil_hash}
use mev_boost.Rpc.{Http}
use mev_boost.Store.Interface.{StoreOps, StoreLaws}
use mev_boost.Txroot.Merkle.Tree.{HashLaws}
use mev_boost.Service.{Env, Outcome, returned, no_valid_header}
use mev_boost.Service.Header.{skips, get_payload_header_v1}
use mev_boost.Service.Header.Accept.{
  SameHeader, Verified, Revealable, Mismatched, accept-Mismatched, accepted-SameHeader,
  accept-Revealable,
}
use mev_boost.Service.Header.Fees.{higher, not_outbid, is_outbid, outbids, skips-none}
use mev_boost.Service.Header.Best.{offer, crashes, Chosen, process_replies-Chosen}

returned-if :
    {A B C : Type 0} (b : Bool) (x : A) (y : B) (e : C)
    → if◌then◌else◌ {A = Outcome (A × B × Option C)} b
        (returned (x, y, some e))
        (returned (x, y, none))
      ≡ returned (x, y, if b then some e else none)
returned-if true x y e = refl
returned-if false x y e = refl

module _ {Raw Request Response S : Type 0} (http : Http Raw Request Response) (env : Env Raw)
    (ops : StoreOps S) (now : String → ℕ) (order : List (String × String) → List (String × String))
    (args : String) (payload_id : Bytes) (responses : List (String × String)) (s : S) where
  header-Chosen :
      HashLaws env.sha256
      → env.unmarshal_text args ≡ some payload_id
      → ops.get_forkchoice_response (env.bytes_string payload_id) s ≡ some responses
      → Perm (order responses) responses
      → any (λ relay. crashes (offer http env ops now relay)) responses ≡ false
      → (s' : S) × (r : ExecutionPayloadWithTxRootV1) × (get_payload_header_v1 http env ops now
            order args zero_payload s
          ≡ returned (
            s',
            r,
            if r.block_hash == nil_hash
                then some (no_valid_header (env.bytes_string payload_id))
                else none,
          ))
        × Chosen http env ops now (order responses) s zero_payload s' r
  unfolding get_payload_header_v1
  header-Chosen laws id found perm calm =
      let (s', r, e, c) =
        process_replies-Chosen http env ops now laws (order responses) s zero_payload
          (any-perm _ perm ∙ calm) in
      (
        s',
        r,
        rw (get_payload_header_v1, id)
            (rw found (
              rw e (
                returned-if (r.block_hash == nil_hash) s' r
                  (no_valid_header (env.bytes_string payload_id))))),
        c,
      )

  -- For a payload id with relay responses in the store, with SHA-256 of 32 bytes and the table of
  -- zero hashes its chain, and if no relay's reply is a nil response without an error,
  -- `GetPayloadHeaderV1` returns, in whatever order the replies arrive. Its error is that there is no
  -- valid header, exactly if the result's block hash is zero. No relay's payload has a higher fee
  -- than the result, and the result is the zero payload, or the payload of one of the relays
  -- but for its transactions and their root.
  pub get_payload_header_v1-best :
      HashLaws env.sha256
      → env.unmarshal_text args ≡ some payload_id
      → ops.get_forkchoice_response (env.bytes_string payload_id) s ≡ some responses
      → Perm (order responses) responses
      → any (λ relay. crashes (offer http env ops now relay)) responses ≡ false
      → (s' : S) × (r : ExecutionPayloadWithTxRootV1) × (get_payload_header_v1 http env ops now
            order args zero_payload s
          ≡ returned (
            s',
            r,
            if r.block_hash == nil_hash
                then some (no_valid_header (env.bytes_string payload_id))
                else none,
          ))
        × (any (λ relay. outbids r (offer http env ops now relay)) responses ≡ false)
        × ((r ≡ zero_payload)
            ⊎ ((relay : String × String) × (p : ExecutionPayloadWithTxRootV1) × Mem relay responses
                × (offer http env ops now relay ≡ returned (some p))
                × SameHeader p r))
  get_payload_header_v1-best laws id found perm calm =
      let (s', r, e, c) = header-Chosen laws id found perm calm in
      (
        s',
        r,
        e,
        any-perm _ (Perm.symm perm) ∙ c.unbeaten,
        elim c.source [
          | inl (at_s, at_r) ↦ inl at_r
          | inr x ↦
              let same =
                accepted-SameHeader env ops laws (now x.relay.0) x.payload x.before s' r
                  x.accepted in
              inr (x.relay, x.payload, (Perm.mem_iff perm).0 x.was_asked, x.offered, same)
        ],
      )

  -- For a payload id with relay responses in the store, with SHA-256 of 32 bytes and the table of
  -- zero hashes its chain, if no relay's reply is a nil response without an error and every payload
  -- that a relay offers has transactions whose root is computed, and declares that root or none,
  -- then `GetPayloadHeaderV1` returns, with an error exactly if the result's block hash is zero. It
  -- returns a state in which the payload of the header is in the store under its block hash, with
  -- its transactions, or it leaves the store and the result as they were.
  pub get_payload_header_v1-reveals :
      HashLaws env.sha256
      → StoreLaws ops
      → env.unmarshal_text args ≡ some payload_id
      → ops.get_forkchoice_response (env.bytes_string payload_id) s ≡ some responses
      → Perm (order responses) responses
      → any (λ relay. crashes (offer http env ops now relay)) responses ≡ false
      → ((relay : String × String) (p : ExecutionPayloadWithTxRootV1)
          → Mem relay responses
          → offer http env ops now relay ≡ returned (some p)
          → Verified env ops p)
      → (s' : S) × (r : ExecutionPayloadWithTxRootV1) × (get_payload_header_v1 http env ops now
            order args zero_payload s
          ≡ returned (
            s',
            r,
            if r.block_hash == nil_hash
                then some (no_valid_header (env.bytes_string payload_id))
                else none,
          ))
        × (((s' ≡ s) × (r ≡ zero_payload)) ⊎ Revealable env ops s' r)
  get_payload_header_v1-reveals laws store_laws id found perm calm all_verified =
      let (s', r, e, c) = header-Chosen laws id found perm calm in
      (
        s',
        r,
        e,
        elim c.source [
          | inl same ↦ inl same
          | inr x ↦
              let v =
                all_verified x.relay x.payload ((Perm.mem_iff perm).0 x.was_asked) x.offered in
              inr (
                accept-Revealable env ops store_laws (now x.relay.0) x.payload x.before s' r v
                  x.accepted)
        ],
      )

  -- For a payload id with relay responses in the store, with SHA-256 of 32 bytes and the table of
  -- zero hashes its chain, and if no relay's reply is a nil response without an error: if a relay
  -- offers a payload that declares a root other than that of its transactions, its block hash is not
  -- zero, and every other payload that a relay offers has a lower fee, then `GetPayloadHeaderV1`
  -- returns that payload, with its transactions and without an error, in whatever order the
  -- replies arrive.
  pub get_payload_header_v1-Mismatched :
      HashLaws env.sha256
      → env.unmarshal_text args ≡ some payload_id
      → ops.get_forkchoice_response (env.bytes_string payload_id) s ≡ some responses
      → Perm (order responses) responses
      → any (λ relay. crashes (offer http env ops now relay)) responses ≡ false
      → (best : String × String) (p : ExecutionPayloadWithTxRootV1) → Mem best responses
      → offer http env ops now best ≡ returned (some p)
      → Mismatched env ops p
      → (p.block_hash == nil_hash) ≡ false
      → ((relay : String × String) (q : ExecutionPayloadWithTxRootV1)
          → Mem relay responses
          → offer http env ops now relay ≡ returned (some q)
          → (q ≡ p) ⊎ (higher p.fee_recipient_diff q.fee_recipient_diff ≡ true))
      → (s' : S) × (get_payload_header_v1 http env ops now order args zero_payload s
          ≡ returned (s', p, none))
  get_payload_header_v1-Mismatched laws id found perm calm best p asked offered bad hash lower =
      let (s', r, e, c) = header-Chosen laws id found perm calm in
      let kept : skips r.fee_recipient_diff p.fee_recipient_diff ≡ true =
        not_outbid r p (offer http env ops now best) offered (
          any-mem (λ relay. outbids r (offer http env ops now relay)) c.unbeaten
            ((Perm.mem_iff perm).1 asked)) in
      let is_p : r ≡ p = elim c.source [
        | inl (at_s, at_r) ↦ absurd (skips-none p.fee_recipient_diff (rw at_r at kept))
        | inr x ↦ elim (lower x.relay x.payload ((Perm.mem_iff perm).0 x.was_asked) x.offered) [
          | inl same ↦
              accept-Mismatched env ops (now x.relay.0) p x.before s' r bad (rw same at x.accepted)
          | inr low ↦
              let fee : r.fee_recipient_diff ≡ x.payload.fee_recipient_diff =
                ap (λ u. u.fee_recipient_diff)
                  (accepted-SameHeader env ops laws (now x.relay.0) x.payload x.before s' r
                    x.accepted) in
              absurd
                (is_outbid p.fee_recipient_diff x.payload.fee_recipient_diff low (rw fee at kept))
        ]
      ] in
      (s', ground (arith, e, is_p, hash))
