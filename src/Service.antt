-- ===== src/Service.antt =====
-- lib/service.go: the relay service. Its state is that of the store, which it uses through the
-- interface `StoreOps`; what the Ethereum and JSON libraries do is the record `Env`.
use mev_boost.Common.{
  String, Option, none, some, List, [], ◌∷◌, Bool, ◌||◌, ◌==◌, string_eq, if◌then◌else◌,
}
use mev_boost.Types.{Bytes, Hash, ForkChoiceResponse, BlindedBeaconBlockBodyPartial}
use mev_boost.Payload.{Codec}
pub mod Channel
pub mod Forkchoice
pub mod Header
pub mod Propose
pub mod Reveal
pub mod System
pub mod Tests

pub record Env (Raw : Type 0) : Type 0 where
  -- encoding/json, for the three types that are unmarshalled here
  pub codec : Codec Raw
  pub unmarshal_forkchoice : Raw → Option ForkChoiceResponse
  pub unmarshal_body : Raw → Option BlindedBeaconBlockBodyPartial
  -- hexutil.Bytes: UnmarshalText and String
  pub unmarshal_text : String → Option Bytes
  pub bytes_string : Bytes → String
  -- common.HexToHash, common.Hex2Bytes, common.BytesToHash
  pub hex_to_hash : String → Hash
  pub hex_to_bytes : String → Bytes
  pub bytes_to_hash : Bytes → Hash
  -- whether types.Transaction.UnmarshalBinary accepts the bytes
  pub is_transaction : Bytes → Bool
  pub sha256 : Bytes → Hash

-- How a handler ends, if it does not panic: without an error, or with one of these.
pub data HandlerError : Type 0 where
  no_relay_urls rand_failed no_valid_relay_response nil_block bad_body bad_payload_id : HandlerError
  no_forkchoice_responses no_valid_header no_valid_block : String → HandlerError

-- A nil pointer that is followed panics.
pub data Outcome {ℓ} (A : Type ℓ) : Type ℓ where
  returned : A → Outcome A
  panicked : Outcome A

infixl 5 ◌>>=◌
abbrev pub ◌>>=◌ {ℓ κ} : {A : Type ℓ} {B : Type κ} → Outcome A → (A → Outcome B) → Outcome B
returned a >>= f = f a
panicked >>= f = panicked

-- The fields of a `RelayService` that are not the store.
pub record RelayService : Type 0 where
  pub relay_urls : List String

unfoldable pub new_relay_service : List String → Option RelayService
new_relay_service [] = none
new_relay_service (url ∷ urls) =
    if url == "" then none else some (record { relay_urls = url ∷ urls })
