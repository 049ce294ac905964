-- ===== src/Service/Forkchoice.antt =====
-- `ForkchoiceUpdatedV1` of lib/service.go. One goroutine runs for each relay; what it does to the
-- shared state is one write under the store's mutex, so a run is the sequence of those writes, in
-- the order in which the goroutines make them: `order` picks it.
use mev_boost.Common.{
  ℕ, String, Option, none, some, List, [], ◌∷◌, Bool, true, false, not, ◌||◌, ◌==◌, string_eq,
  if◌then◌else◌,
}
use mev_boost.Types.{Bytes, ForkChoiceResponse, PayloadStatus, forkchoice_status_valid}
use mev_boost.Rpc.{Http, Param, Reply, RpcResponse, make_request}
use mev_boost.Store.Interface.{StoreOps}
use mev_boost.Service.{
  Env, Outcome, returned, panicked, ◌>>=◌, HandlerError, rand_failed, no_valid_relay_response,
  RelayService,
}
pub mod Accepted
pub mod Replies
pub mod Stores

-- VALID, SUCCESS and the empty status pass.
unfoldable pub status_ok : String → Bool
status_ok status = status == forkchoice_status_valid || (status == "SUCCESS" || status == "")

abbrev pub id_if : Bool → Option Bytes → Option Bytes
id_if true id = id
id_if false id = none

-- What a goroutine makes of its relay's reply: the payload id to store, if any.
module _ {Raw : Type 0} (env : Env Raw) where
  unfoldable pub response_id : RpcResponse Raw → Option Bytes
  response_id res = elim res.error [
    | some e ↦ none
    | none ↦ elim (env.unmarshal_forkchoice res.result) [
      | none ↦ none
      | some response ↦ id_if (status_ok response.payload_status.status) response.payload_id
    ]
  ]

  unfoldable pub reply_id : Reply Raw → Outcome (Option Bytes)
  reply_id reply = elim reply.err [
    | some e ↦ returned none
    | none ↦ elim reply.res [ none ↦ panicked | some res ↦ returned (response_id res) ]
  ]

-- The compiled response.
abbrev pub compiled : Bytes → ForkChoiceResponse
compiled boost_id = record {
  payload_status = record {
    status = forkchoice_status_valid;
    latest_valid_hash = "";
    validation_error = "";
  };
  payload_id = some boost_id;
}

abbrev pub method : String
method = "engine_forkchoiceUpdatedV1"

module _ {Raw Request Response S : Type 0} (http : Http Raw Request Response) (env : Env Raw)
    (ops : StoreOps S) (now : String → ℕ) where
  -- The write of one goroutine: the state of the store, and `hasValidResponse`.
  unfoldable pub goroutine : String → List (Param Raw) → String → S × Bool → Outcome (S × Bool)
  goroutine boost_id args url (s, valid) =
      reply_id env (make_request http url method args) >>= λ id. elim id [
        | none ↦ returned (s, valid)
        | some relay_id ↦
            returned (
              ops.set_forkchoice_response (now url) boost_id url (env.bytes_string relay_id) s,
              true,
            )
      ]

  unfoldable pub goroutines :
      String → List (Param Raw) → List String → S × Bool → Outcome (S × Bool)
  goroutines boost_id args [] s = returned s
  goroutines boost_id args (url ∷ urls) s =
      goroutine boost_id args url s >>= goroutines boost_id args urls

  -- `random` is what rand.Read fills the boost payload id with. The result is the state of the
  -- store, `*result` and the error.
  unfoldable pub forkchoice_updated_v1 :
      RelayService
      → (List String → List String)
      → Option Bytes
      → List (Param Raw)
      → ForkChoiceResponse
      → S
      → Outcome (S × ForkChoiceResponse × Option HandlerError)
  forkchoice_updated_v1 m order none args result s = returned (s, result, some rand_failed)
  forkchoice_updated_v1 m order (some boost_id) args result s =
      goroutines (env.bytes_string boost_id) args (order m.relay_urls) (s, false) >>= λ (s', valid).
      if not valid
      then returned (s', result, some no_valid_relay_response)
      else returned (s', compiled boost_id, none)
