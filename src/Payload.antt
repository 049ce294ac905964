-- ===== src/Payload.antt =====
-- lib/gen_ed.go: the payload's JSON encoding. The JSON texts are an abstract type Raw, and what
-- encoding/json does with the two local structs is a parameter, a codec.
use mev_boost.Common.{ℕ, String, Option, none, some, List}
use mev_boost.Common.Int.{ℤ}
use mev_boost.Types.{Bytes, Hash, ExecutionPayloadWithTxRootV1}
pub mod Decoding
pub mod RoundTrip
pub mod Tests

-- The local struct of `MarshalJSON`.
pub record EncPayload : Type 0 where
  pub parent_hash : Hash
  pub fee_recipient : Bytes
  pub state_root : Hash
  pub receipts_root : Hash
  pub logs_bloom : Bytes
  pub prev_randao : Hash
  pub number : ℕ
  pub gas_limit : ℕ
  pub gas_used : ℕ
  pub timestamp : ℕ
  pub extra_data : Bytes
  pub base_fee_per_gas : Option ℤ
  pub block_hash : Hash
  pub transactions : Option (List String)
  pub transactions_root : Hash
  pub fee_recipient_diff : Option ℤ

-- The local struct of `UnmarshalJSON`: every field is a pointer, nil where the text has no value.
pub record DecPayload : Type 0 where
  pub parent_hash : Option Hash
  pub fee_recipient : Option Bytes
  pub state_root : Option Hash
  pub receipts_root : Option Hash
  pub logs_bloom : Option Bytes
  pub prev_randao : Option Hash
  pub number : Option ℕ
  pub gas_limit : Option ℕ
  pub gas_used : Option ℕ
  pub timestamp : Option ℕ
  pub extra_data : Option Bytes
  pub base_fee_per_gas : Option ℤ
  pub block_hash : Option Hash
  pub transactions : Option (List String)
  pub transactions_root : Option Hash
  pub fee_recipient_diff : Option ℤ

-- json.Marshal(&enc) and json.Unmarshal(input, &dec).
pub record Codec (Raw : Type 0) : Type 0 where
  pub encode : EncPayload → Option Raw
  pub decode : Raw → Option DecPayload

pub data DecodeError : Type 0 where
  malformed : DecodeError
  missing : String → DecodeError

unfoldable pub marshal_json : {Raw : Type 0} → Codec Raw → ExecutionPayloadWithTxRootV1 → Option Raw
marshal_json codec e = codec.encode (record {
  parent_hash = e.parent_hash;
  fee_recipient = e.fee_recipient;
  state_root = e.state_root;
  receipts_root = e.receipts_root;
  logs_bloom = e.logs_bloom;
  prev_randao = e.prev_randao;
  number = e.number;
  gas_limit = e.gas_limit;
  gas_used = e.gas_used;
  timestamp = e.timestamp;
  extra_data = e.extra_data;
  base_fee_per_gas = e.base_fee_per_gas;
  block_hash = e.block_hash;
  transactions = e.transactions;
  transactions_root = e.transactions_root;
  fee_recipient_diff = e.fee_recipient_diff;
})

-- A statement of `UnmarshalJSON` changes `e` and may return an error.
abbrev pub Statement : Type 0
Statement = ExecutionPayloadWithTxRootV1 → ExecutionPayloadWithTxRootV1 × Option DecodeError

abbrev pub and_then :
    ExecutionPayloadWithTxRootV1 × Option DecodeError
    → Statement
    → ExecutionPayloadWithTxRootV1 × Option DecodeError
and_then (e, none) k = k e
and_then (e, some err) k = (e, some err)

infixl 5 ◌>>◌
abbrev pub ◌>>◌ : Statement → Statement → Statement
◌>>◌ m k e = and_then (m e) k

-- if dec.F == nil { return errors.New("missing required field …") }; e.F = *dec.F
required :
    {A : Type 0}
    → Option A
    → String
    → (A → ExecutionPayloadWithTxRootV1 → ExecutionPayloadWithTxRootV1)
    → Statement
required none name assign e = (e, some (missing name))
required (some a) name assign e = (assign a e, none)

-- if dec.F != nil { e.F = *dec.F }
optional :
    {A : Type 0}
    → Option A
    → (A → ExecutionPayloadWithTxRootV1 → ExecutionPayloadWithTxRootV1)
    → Statement
optional none assign e = (e, none)
optional (some a) assign e = (assign a e, none)

unfoldable pub assign_fields : DecPayload → Statement
unfolding required optional
assign_fields dec = do
  required dec.parent_hash "parentHash" (λ v e. record e { parent_hash = v })
  required dec.fee_recipient "feeRecipient" (λ v e. record e { fee_recipient = v })
  required dec.state_root "stateRoot" (λ v e. record e { state_root = v })
  required dec.receipts_root "receiptsRoot" (λ v e. record e { receipts_root = v })
  required dec.logs_bloom "logsBloom" (λ v e. record e { logs_bloom = v })
  required dec.prev_randao "prevRandao" (λ v e. record e { prev_randao = v })
  required dec.number "blockNumber" (λ v e. record e { number = v })
  required dec.gas_limit "gasLimit" (λ v e. record e { gas_limit = v })
  required dec.gas_used "gasUsed" (λ v e. record e { gas_used = v })
  required dec.timestamp "timestamp" (λ v e. record e { timestamp = v })
  required dec.extra_data "extraData" (λ v e. record e { extra_data = v })
  required dec.base_fee_per_gas "baseFeePerGas" (λ v e. record e { base_fee_per_gas = some v })
  required dec.block_hash "blockHash" (λ v e. record e { block_hash = v })
  optional dec.transactions (λ v e. record e { transactions = some v })
  optional dec.transactions_root (λ v e. record e { transactions_root = v })
  required dec.fee_recipient_diff "feeRecipientDiff"
      (λ v e. record e { fee_recipient_diff = some v })

-- The error is the second part of the result; `e` keeps what was assigned before it.
unfoldable pub unmarshal_json :
    {Raw : Type 0}
    → Codec Raw
    → Raw
    → ExecutionPayloadWithTxRootV1
    → ExecutionPayloadWithTxRootV1 × Option DecodeError
unfolding assign_fields
unmarshal_json codec input e = elim (codec.decode input) [
  | none ↦ (e, some malformed)
  | some dec ↦ assign_fields dec e
]
