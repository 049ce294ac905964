-- ===== src/Service/Reveal.antt =====
-- The header flow as a whole: `GetPayloadHeaderV1`, then `ProposeBlindedBlockV1` for a block that
-- has the header's block hash.
use mathlib.Core.Path.{subst}
use mathlib.Core.List.{Mem, Perm}
use mev_boost.Common.{
  ℕ, String, ◌≡◌, ◌≢◌, refl, sym, ◌∙◌, inl, inr, none, some, List, false, ◌==◌, bytes_eq,
  if◌then◌else◌,
}
use mev_boost.Common.Orders.{any}
use mev_boost.Types.{
  Bytes, ExecutionPayloadWithTxRootV1, SignedBlindedBeaconBlock, BlindedBeaconBlock,
  BlindedBeaconBlockBodyPartial, zero_payload, nil_hash,
}
use mev_boost.Rpc.{Http}
use mev_boost.Store.Interface.{StoreOps, StoreLaws}
use mev_boost.Txroot.Merkle.Tree.{HashLaws}
use mev_boost.Service.{Env, returned, RelayService, no_valid_header}
use mev_boost.Service.Header.{get_payload_header_v1}
use mev_boost.Service.Header.Accept.{Verified, Revealable}
use mev_boost.Service.Header.Best.{offer, crashes}
use mev_boost.Service.Header.Choice.{get_payload_header_v1-reveals}
use mev_boost.Service.Propose.{body_block_hash, propose_blinded_block_v1}
use mev_boost.Service.Propose.Replies.{propose_blinded_block_v1-first}

module _ {Raw Request Response S : Type 0} (http : Http Raw Request Response) (env : Env Raw)
    (ops : StoreOps S) (now : String → ℕ) (order : List (String × String) → List (String × String))
    (id_text : String) (payload_id : Bytes) (responses : List (String × String)) (s s' : S)
    (header : ExecutionPayloadWithTxRootV1) where
  -- A header that is returned without an error is in the store.
  header-Revealable :
      HashLaws env.sha256
      → StoreLaws ops
      → env.unmarshal_text id_text ≡ some payload_id
      → ops.get_forkchoice_response (env.bytes_string payload_id) s ≡ some responses
      → Perm (order responses) responses
      → any (λ relay. crashes (offer http env ops now relay)) responses ≡ false
      → ((relay : String × String) (p : ExecutionPayloadWithTxRootV1)
          → Mem relay responses
          → offer http env ops now relay ≡ returned (some p)
          → Verified env ops p)
      → get_payload_header_v1 http env ops now order id_text zero_payload s
        ≡ returned (s', header, none)
      → Revealable env ops s' header
  header-Revealable laws store_laws id found perm calm all_verified returns =
      let (t, r, e, reveals) =
        get_payload_header_v1-reveals http env ops now order id_text payload_id responses s laws
          store_laws id found perm calm all_verified in
      let both = sym e ∙ returns in
      let same_state : t ≡ s' = cc both in
      let same_header : r ≡ header = cc both in
      elim reveals [
        | inl (at_s, at_r) ↦
            let no_error : (if r.block_hash == nil_hash
                  then some (no_valid_header (env.bytes_string payload_id))
                  else none)
                ≡ none =
              cc both in
            absurd (cc (rw at_r at no_error))
        | inr found ↦
            subst (λ h. Revealable env ops s' h) same_header
              (subst (λ u. Revealable env ops u r) same_state found)
      ]

  -- If `GetPayloadHeaderV1` returns a header without an error, from relays whose payloads all have
  -- transactions whose root is computed and is the declared one, or with none declared, and whose
  -- replies are never a nil response without an error, then `ProposeBlindedBlockV1`, for every block
  -- whose body has the header's block hash, returns without an error a payload with transactions
  -- that is that header apart from them, in the store that the first call left and whatever the
  -- relays are. It is assumed that the store keeps the laws of its interface, and that SHA-256 has
  -- 32 bytes and the table of zero hashes as its chain.
  pub header-then-propose :
      HashLaws env.sha256
      → StoreLaws ops
      → env.unmarshal_text id_text ≡ some payload_id
      → ops.get_forkchoice_response (env.bytes_string payload_id) s ≡ some responses
      → Perm (order responses) responses
      → any (λ relay. crashes (offer http env ops now relay)) responses ≡ false
      → ((relay : String × String) (p : ExecutionPayloadWithTxRootV1)
          → Mem relay responses
          → offer http env ops now relay ≡ returned (some p)
          → Verified env ops p)
      → get_payload_header_v1 http env ops now order id_text zero_payload s
        ≡ returned (s', header, none)
      → (m : RelayService) (arrival : List String → List String)
      → (block : SignedBlindedBeaconBlock Raw) (message : BlindedBeaconBlock Raw)
      → (body : BlindedBeaconBlockBodyPartial) (result : ExecutionPayloadWithTxRootV1)
      → block.message ≡ some message
      → env.unmarshal_body message.body ≡ some body
      → env.hex_to_hash (body_block_hash body) ≡ header.block_hash
      → (payload : ExecutionPayloadWithTxRootV1) × (propose_blinded_block_v1 http env ops m arrival
            (some block)
            result
            s'
          ≡ returned (payload, none))
        × (payload.transactions ≢ none)
        × (header ≡ record payload { transactions = none })
  header-then-propose laws store_laws id found perm calm all_verified returns m arrival block
        message body result has_message has_body same_hash =
      let x = header-Revealable laws store_laws id found perm calm all_verified returns in
      (
        x.payload,
        propose_blinded_block_v1-first http env ops m arrival block message body result s'
              has_message has_body
            ∙ rw same_hash (rw x.stored refl),
        x.has_txs,
        x.header,
      )
