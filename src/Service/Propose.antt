-- ===== src/Service/Propose.antt =====
-- `ProposeBlindedBlockV1` of lib/service.go.
use mev_boost.Common.{
  String, Option, none, some, List, [], ◌∷◌, map, Bool, true, false, not, ◌==◌, string_eq,
  if◌then◌else◌,
}
use mev_boost.Types.{
  Hash, ExecutionPayloadWithTxRootV1, SignedBlindedBeaconBlock, BlindedBeaconBlockBodyPartial,
}
use mev_boost.Payload.{unmarshal_json}
use mev_boost.Rpc.{Http, Param, Reply, RpcResponse, make_request}
use mev_boost.Store.Interface.{StoreOps}
use mev_boost.Service.{
  Env, Outcome, returned, panicked, HandlerError, nil_block, bad_body, no_valid_block, RelayService,
}
pub mod Replies

-- Both spellings of the header's name, and of the hash's name in it: the first that is not empty.
unfoldable pub body_block_hash : BlindedBeaconBlockBodyPartial → String
body_block_hash body =
    if not (body.execution_payload.block_hash == "")
    then body.execution_payload.block_hash
    else if not (body.execution_payload.block_hash_camel == "")
    then body.execution_payload.block_hash_camel
    else if not (body.execution_payload_camel.block_hash == "")
    then body.execution_payload_camel.block_hash
    else if not (body.execution_payload_camel.block_hash_camel == "")
    then body.execution_payload_camel.block_hash_camel
    else ""

-- The loop over the replies, in the order in which they arrive. `failed` is `err != nil`, for the
-- variable `err` of the handler: a reply's own error is not read. The loop's test of the request's
-- context is left out: the context is cancelled only where the handler returns.
module _ {Raw : Type 0} (env : Env Raw) (block_hash : String) where
  unfoldable pub await_replies :
      List (Reply Raw)
      → Bool
      → ExecutionPayloadWithTxRootV1
      → Outcome (ExecutionPayloadWithTxRootV1 × Option HandlerError)
  await_replies [] failed result = returned (result, some (no_valid_block block_hash))
  await_replies (reply ∷ replies) true result = await_replies replies true result
  await_replies (reply ∷ replies) false result = elim reply.res [
    | none ↦ panicked
    | some res ↦ elim res.error [
      | some e ↦ await_replies replies false result
      | none ↦
          let (result', failure) = unmarshal_json env.codec res.result result in
          elim failure [
            | some e ↦ await_replies replies true result'
            | none ↦ returned (result', none)
          ]
    ]
  ]

abbrev pub method : String
method = "relay_proposeBlindedBlockV1"

module _ {Raw Request Response S : Type 0} (http : Http Raw Request Response) (env : Env Raw)
    (ops : StoreOps S) where
  -- The result is `*result` and the error; the store is only read.
  unfoldable pub propose_blinded_block_v1 :
      RelayService
      → (List String → List String)
      → Option (SignedBlindedBeaconBlock Raw)
      → ExecutionPayloadWithTxRootV1
      → S
      → Outcome (ExecutionPayloadWithTxRootV1 × Option HandlerError)
  propose_blinded_block_v1 m order none result s = returned (result, some nil_block)
  propose_blinded_block_v1 m order (some args) result s = elim args.message [
    | none ↦ returned (result, some nil_block)
    | some message ↦ elim (env.unmarshal_body message.body) [
      | none ↦ returned (result, some bad_body)
      | some body ↦
          let block_hash = body_block_hash body in
          elim (ops.get_execution_payload (env.hex_to_hash block_hash) s) [
            | some cached ↦ returned (cached, none)
            | none ↦
                await_replies env block_hash
                  (map (λ url. make_request http url method (Param.block args ∷ []))
                    (order m.relay_urls))
                  false result
          ]
    ]
  ]
