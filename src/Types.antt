-- ===== src/Types.antt =====
-- lib/types.go: the payloads and messages that the relays, the store and the service exchange.
-- A `common.Hash` and a `common.Address` are lists of bytes, a pointer is an `Option`, and a
-- `*big.Int` is an optional ℤ.
use mev_boost.Common.{ℕ, String, Option, none, List, [], replicate}
use mev_boost.Common.Int.{ℤ}

abbrev pub Bytes : Type 0
Bytes = List ℕ

abbrev pub Hash : Type 0
Hash = List ℕ

-- common.Hash{}
abbrev pub nil_hash : Hash
nil_hash = replicate 32 0

pub record ExecutionPayloadWithTxRootV1 : Type 0 where
  pub parent_hash : Hash
  pub fee_recipient : Bytes
  pub state_root : Hash
  pub receipts_root : Hash
  pub logs_bloom : Bytes
  pub prev_randao : Hash
  pub number : ℕ
  pub gas_limit : ℕ
  pub gas_used : ℕ
  pub timestamp : ℕ
  pub extra_data : Bytes
  pub base_fee_per_gas : Option ℤ
  pub block_hash : Hash
  pub transactions : Option (List String)
  pub transactions_root : Hash
  pub fee_recipient_diff : Option ℤ

-- new(ExecutionPayloadWithTxRootV1): Go's zero value.
abbrev pub zero_payload : ExecutionPayloadWithTxRootV1
zero_payload = record {
  parent_hash = nil_hash;
  fee_recipient = replicate 20 0;
  state_root = nil_hash;
  receipts_root = nil_hash;
  logs_bloom = [];
  prev_randao = nil_hash;
  number = 0;
  gas_limit = 0;
  gas_used = 0;
  timestamp = 0;
  extra_data = [];
  base_fee_per_gas = none;
  block_hash = nil_hash;
  transactions = none;
  transactions_root = nil_hash;
  fee_recipient_diff = none;
}

pub record ExecutionPayloadHeaderOnlyBlockHash : Type 0 where
  pub block_hash : String
  pub block_hash_camel : String

pub record BlindedBeaconBlockBodyPartial : Type 0 where
  pub execution_payload : ExecutionPayloadHeaderOnlyBlockHash
  pub execution_payload_camel : ExecutionPayloadHeaderOnlyBlockHash

-- A json.RawMessage is a value of the abstract type Raw.
pub record BlindedBeaconBlock (Raw : Type 0) : Type 0 where
  pub slot : String
  pub proposer_index : String
  pub parent_root : String
  pub state_root : String
  pub body : Raw

pub record SignedBlindedBeaconBlock (Raw : Type 0) : Type 0 where
  pub message : Option (BlindedBeaconBlock Raw)
  pub signature : String

-- The statuses are strings.
abbrev pub ForkchoiceStatus : Type 0
ForkchoiceStatus = String

abbrev pub forkchoice_status_valid : ForkchoiceStatus
forkchoice_status_valid = "VALID"

abbrev pub forkchoice_status_invalid : ForkchoiceStatus
forkchoice_status_invalid = "INVALID"

abbrev pub forkchoice_status_accepted : ForkchoiceStatus
forkchoice_status_accepted = "ACCEPTED"

abbrev pub forkchoice_status_syncing : ForkchoiceStatus
forkchoice_status_syncing = "SYNCING"

abbrev pub forkchoice_status_invalid_block_hash : ForkchoiceStatus
forkchoice_status_invalid_block_hash = "INVALID_BLOCK_HASH"

abbrev pub forkchoice_status_invalid_terminal_block : ForkchoiceStatus
forkchoice_status_invalid_terminal_block = "INVALID_TERMINAL_BLOCK"

pub record PayloadStatus : Type 0 where
  pub status : ForkchoiceStatus
  pub latest_valid_hash : String
  pub validation_error : String

pub record ForkChoiceResponse : Type 0 where
  pub payload_status : PayloadStatus
  pub payload_id : Option Bytes
