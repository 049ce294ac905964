-- ===== src/Service/Header.antt =====
-- `GetPayloadHeaderV1` of lib/service.go. The relays are called at once, and their replies are
-- processed in the order in which they arrive: `order` picks it.
use mev_boost.Common.{
  ◌≡◌, ℕ, String, Option, none, some, List, [], ◌∷◌, ◌++◌, map, Bool, true, false, not, ◌&&◌, ◌==◌,
  bytes_eq, if◌then◌else◌,
}
use mev_boost.Common.Int.{ℤ, lebℤ}
use mev_boost.Types.{Bytes, Hash, ExecutionPayloadWithTxRootV1, zero_payload, nil_hash}
use mev_boost.Payload.{unmarshal_json}
use mev_boost.Rpc.{Http, Param, Reply, RpcResponse, make_request}
use mev_boost.Rpc
use mev_boost.Store.Interface.{StoreOps}
use mev_boost.Txroot.Result.{Result, ok, over_limit, panic, out_of_fuel}
use mev_boost.Txroot.Root.{transactions_root}
use mev_boost.Txroot.Root.Ends.{transactions_root-finishes}
use mev_boost.Txroot.Merkle.Termination.{finishes}
use mev_boost.Service.{
  Env, Outcome, returned, panicked, ◌>>=◌, HandlerError, bad_payload_id, no_forkchoice_responses,
  no_valid_header,
}
pub mod Root
pub mod Accept
pub mod Fees
pub mod Best
pub mod Choice
pub mod Writes

-- Whether the reply has a lower fee than the result, or the same.
unfoldable pub skips : Option ℤ → Option ℤ → Bool
skips none new = false
skips (some best) none = true
skips (some best) (some new) = lebℤ new best

module _ {Raw : Type 0} (env : Env Raw) where
  -- The loop over the transactions: one that does not decode is left out.
  unfoldable pub byte_txs : List String → List Bytes
  byte_txs [] = []
  byte_txs (otx ∷ otxs) =
      let bytes_tx = env.hex_to_bytes otx in
      let rest = byte_txs otxs in if env.is_transaction bytes_tx then bytes_tx ∷ rest else rest

  -- The payload that a reply holds, if it has no error and unmarshals; a nil response panics.
  unfoldable pub reply_payload : Reply Raw → Outcome (Option ExecutionPayloadWithTxRootV1)
  reply_payload reply = elim reply.err [
    | some e ↦ returned none
    | none ↦ elim reply.res [
      | none ↦ panicked
      | some res ↦ elim res.error [
        | some e ↦ returned none
        | none ↦
            let (p, failure) = unmarshal_json env.codec res.result zero_payload in
            elim failure [ some e ↦ returned none | none ↦ returned (some p) ]
      ]
    ]
  ]

module _ {Raw S : Type 0} (env : Env Raw) (ops : StoreOps S) where
  -- `continue` leaves `*result` as it is, which is the new payload already.
  unfoldable pub check_root :
      ℕ → ExecutionPayloadWithTxRootV1 → Hash → S → S × ExecutionPayloadWithTxRootV1
  check_root now p new_root s =
      if not (p.transactions_root == nil_hash) && not (new_root == p.transactions_root)
      then (s, p)
      else let stored = record p { transactions_root = new_root } in
        (
          ops.set_execution_payload now stored.block_hash (some stored) s,
          record stored { transactions = none },
        )

  -- What follows the call of `TransactionsRoot`, which ends.
  unfoldable pub with_root :
      ℕ
      → ExecutionPayloadWithTxRootV1
      → S
      → (r : Result Hash) → finishes r ≡ true
      → Outcome (S × ExecutionPayloadWithTxRootV1)
  with_root now p s (ok root) ends = returned (check_root now p (env.bytes_to_hash root) s)
  with_root now p s over_limit ends = returned (s, p)
  with_root now p s panic ends = panicked
  with_root now p s out_of_fuel ends = absurd (cc ends)

  -- What is done with `result.Transactions`.
  unfoldable pub on_transactions :
      ℕ
      → ExecutionPayloadWithTxRootV1
      → S
      → Option (List String)
      → Outcome (S × ExecutionPayloadWithTxRootV1)
  on_transactions now p s none = returned (s, p)
  on_transactions now p s (some txs) =
      let bytes = byte_txs env txs in
      with_root now p s (transactions_root env.sha256 bytes)
        (transactions_root-finishes env.sha256 bytes)

  -- `*result = *_result` and what follows it.
  unfoldable pub accept :
      ℕ → ExecutionPayloadWithTxRootV1 → S → Outcome (S × ExecutionPayloadWithTxRootV1)
  accept now p s = on_transactions now p s p.transactions

  -- One round of the loop over the replies.
  unfoldable pub process_reply :
      ℕ → Reply Raw → S × ExecutionPayloadWithTxRootV1 → Outcome (S × ExecutionPayloadWithTxRootV1)
  process_reply now reply (s, result) = reply_payload env reply >>= λ new. elim new [
    | none ↦ returned (s, result)
    | some p ↦
        if skips result.fee_recipient_diff p.fee_recipient_diff
        then returned (s, result)
        else accept now p s
  ]

  -- Each reply comes with the time at which it is processed.
  unfoldable pub process_replies :
      List (ℕ × Reply Raw)
      → S × ExecutionPayloadWithTxRootV1
      → Outcome (S × ExecutionPayloadWithTxRootV1)
  process_replies [] s = returned s
  process_replies ((now, reply) ∷ replies) s = process_reply now reply s >>= process_replies replies

abbrev pub method : String
method = "relay_getPayloadHeaderV1"

module _ {Raw Request Response S : Type 0} (http : Http Raw Request Response) (env : Env Raw)
    (ops : StoreOps S) (now : String → ℕ) where
  -- The call of a relay for the payload id that it gave, and when its reply is processed.
  abbrev pub ask : String × String → ℕ × Reply Raw
  ask (url, relay_id) = (now url, make_request http url method (Param.text relay_id ∷ []))

  -- The result is the state of the store, `*result` and the error.
  unfoldable pub get_payload_header_v1 :
      (List (String × String) → List (String × String))
      → String
      → ExecutionPayloadWithTxRootV1
      → S
      → Outcome (S × ExecutionPayloadWithTxRootV1 × Option HandlerError)
  get_payload_header_v1 order args result s = elim (env.unmarshal_text args) [
    | none ↦ returned (s, result, some bad_payload_id)
    | some payload_id ↦
        let id = env.bytes_string payload_id in
        elim (ops.get_forkchoice_response id s) [
          | none ↦ returned (s, result, some (no_forkchoice_responses id))
          | some responses ↦
              process_replies env ops (map ask (order responses)) (s, result) >>= λ (s', result').
              if result'.block_hash == nil_hash
              then returned (s', result', some (no_valid_header id))
              else returned (s', result', none)
        ]
  ]
