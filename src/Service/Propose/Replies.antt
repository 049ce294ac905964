-- ===== src/Service/Propose/Replies.antt =====
-- `ProposeBlindedBlockV1`: which of the relays' replies becomes the result.
use mev_boost.Common.{
  String, ◌≡◌, refl, ap, Option, none, some, List, [], ◌∷◌, map, Bool, true, false, arith,
  Option-cases, inl, inr,
}
use mev_boost.Common.Orders.{first}
use mev_boost.Types.{
  ExecutionPayloadWithTxRootV1, SignedBlindedBeaconBlock, BlindedBeaconBlock,
  BlindedBeaconBlockBodyPartial,
}
use mev_boost.Payload.{DecodeError, unmarshal_json}
use mev_boost.Rpc.{Http, Param, Reply, RpcResponse, make_request}
use mev_boost.Store.Interface.{StoreOps}
use mev_boost.Service.{Env, Outcome, returned, panicked, HandlerError, no_valid_block, RelayService}
use mev_boost.Service.Propose.{await_replies, body_block_hash, method, propose_blinded_block_v1}

-- Only a reply whose response has an error object is passed over.
abbrev pub without_error : {Raw : Type 0} → Option (RpcResponse Raw) → Bool
without_error none = true
without_error (some res) = elim res.error [ none ↦ true | some e ↦ false ]

abbrev pub decides : {Raw : Type 0} → Reply Raw → Bool
decides reply = without_error reply.res

-- A payload that does not decode ends the search, with what was decoded of it as the result.
abbrev pub conclude :
    String
    → ExecutionPayloadWithTxRootV1 × Option DecodeError
    → Outcome (ExecutionPayloadWithTxRootV1 × Option HandlerError)
conclude block_hash (result, none) = returned (result, none)
conclude block_hash (result, some e) = returned (result, some (no_valid_block block_hash))

module _ {Raw : Type 0} (env : Env Raw) (block_hash : String) where
  abbrev pub decision :
      ExecutionPayloadWithTxRootV1
      → Option (Reply Raw)
      → Outcome (ExecutionPayloadWithTxRootV1 × Option HandlerError)
  decision result none = returned (result, some (no_valid_block block_hash))
  decision result (some reply) = elim reply.res [
    | none ↦ panicked
    | some res ↦ conclude block_hash (unmarshal_json env.codec res.result result)
  ]

  await_replies-failed :
      (replies : List (Reply Raw)) (result : ExecutionPayloadWithTxRootV1)
      → await_replies env block_hash replies true result
        ≡ returned (result, some (no_valid_block block_hash))
  unfolding await_replies
  await_replies-failed [] result = refl
  await_replies-failed (reply ∷ replies) result = await_replies-failed replies result

  await_replies-first :
      (replies : List (Reply Raw)) (result : ExecutionPayloadWithTxRootV1)
      → await_replies env block_hash replies false result ≡ decision result (first decides replies)
  unfolding await_replies
  await_replies-first [] result = refl
  await_replies-first (reply ∷ replies) result = elim (Option-cases reply.res) [
    | inl no_res ↦ ground (arith, no_res)
    | inr (res, has_res) ↦ ground (
      arith,
      has_res,
      await_replies-first replies result,
      await_replies-failed replies (unmarshal_json env.codec res.result result).0,
    )
  ]

module _ {Raw Request Response S : Type 0} (http : Http Raw Request Response) (env : Env Raw)
    (ops : StoreOps S) (m : RelayService) (order : List String → List String)
    (args : SignedBlindedBeaconBlock Raw) (message : BlindedBeaconBlock Raw)
    (body : BlindedBeaconBlockBodyPartial) (result : ExecutionPayloadWithTxRootV1) (s : S) where
  -- For a block whose body unmarshals, `ProposeBlindedBlockV1` returns the payload that the store
  -- has under the body's block hash. If there is none, the first of the relays' replies, in the
  -- order in which they arrive, that is not a response with an error decides: it panics for a reply
  -- without a response, returns the decoded payload without an error, its transactions and their root
  -- unverified, and returns the error that no response was valid for one that does not decode, and if
  -- there is no such reply, whatever the later replies are.
  pub propose_blinded_block_v1-first :
      args.message ≡ some message
      → env.unmarshal_body message.body ≡ some body
      → propose_blinded_block_v1 http env ops m order (some args) result s
        ≡ (elim (ops.get_execution_payload (env.hex_to_hash (body_block_hash body)) s) [
          | some cached ↦ returned (cached, none)
          | none ↦ decision env (body_block_hash body) result (
              first decides (
                map
                  (λ url. make_request http url method (Param.block args ∷ []))
                  (order m.relay_urls)))
        ])
  unfolding propose_blinded_block_v1
  propose_blinded_block_v1-first has_message has_body =
      rw (propose_blinded_block_v1, has_message)
        (rw has_body (
          ap
            (λ x. elim (ops.get_execution_payload (env.hex_to_hash (body_block_hash body)) s) [
              | some cached ↦ returned (cached, none)
              | none ↦ x
            ])
            (await_replies-first env (body_block_hash body)
              (map (λ url. make_request http url method (Param.block args ∷ []))
                (order m.relay_urls))
              result)))
