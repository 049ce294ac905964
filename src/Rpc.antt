-- ===== src/Rpc.antt =====
-- lib/jsonrpc.go, and `makeRequest` of lib/service.go: a JSON-RPC call of a relay. A Go function
-- that returns a value and an error is modelled by both parts, since the callers look at them
-- apart. Errors are texts.
pub mod Tests
use mev_boost.Common.{String, Option, none, some, List}
use mev_boost.Common.Int.{ℤ}
use mev_boost.Types.{SignedBlindedBeaconBlock}

pub record RpcError : Type 0 where
  pub code : ℤ
  pub message : String

pub record RpcResponse (Raw : Type 0) : Type 0 where
  pub id : String
  pub jsonrpc : String
  pub result : Raw
  pub error : Option RpcError

-- The values that the service puts into `Params`.
pub data Param (Raw : Type 0) : Type 0 where
  value : Raw → Param Raw
  text : String → Param Raw
  block : SignedBlindedBeaconBlock Raw → Param Raw

pub record RpcRequest (Raw : Type 0) : Type 0 where
  pub id : String
  pub jsonrpc : String
  pub method : String
  pub params : List (Param Raw)

-- A call of net/http or encoding/json that returns a value or an error.
pub data Try {ℓ} (A : Type ℓ) : Type ℓ where
  done : A → Try A
  failed : String → Try A

-- The pair `(*rpcResponse, error)`.
pub record Reply (Raw : Type 0) : Type 0 where
  pub res : Option (RpcResponse Raw)
  pub err : Option String

-- What net/http and encoding/json do. `unmarshal_response data ret` is json.Unmarshal(data, &ret)
-- with `ret` a pointer to the given response: the pointer that it leaves and the error. The text
-- `null` leaves a nil pointer and no error.
pub record Http (Raw Request Response : Type 0) : Type 0 where
  pub nil_text : Raw
  pub marshal : RpcRequest Raw → Try Raw
  pub new_request : String → String → Raw → Try Request
  pub add_header : String → String → Request → Request
  pub send : Request → Try Response
  pub read_all : Response → Try Raw
  pub unmarshal_response : Raw → RpcResponse Raw → Reply Raw

-- The error of a step is returned with a nil response.
abbrev pub or_return : {Raw A : Type 0} → Try A → (A → Reply Raw) → Reply Raw
or_return (done a) k = k a
or_return (failed e) k = record { res = none; err = some e }

module _ {Raw Request Response : Type 0} (http : Http Raw Request Response) where
  -- new(rpcResponse)
  abbrev pub zero_response : RpcResponse Raw
  zero_response = record { id = ""; jsonrpc = ""; result = http.nil_text; error = none }

  unfoldable pub parse_rpc_response : Raw → Reply Raw
  parse_rpc_response body = http.unmarshal_response body zero_response

  unfoldable pub make_request : String → String → List (Param Raw) → Reply Raw
  make_request url method params =
      or_return
        (http.marshal (record { id = "1"; jsonrpc = "2.0"; method = method; params = params }))
        λ body. or_return (http.new_request "POST" url body) λ req.
          or_return (http.send (http.add_header "Content-Type" "application/json" req))
            λ resp. or_return (http.read_all resp) λ resp_body. parse_rpc_response resp_body
