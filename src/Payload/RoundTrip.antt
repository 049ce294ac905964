-- ===== src/Payload/RoundTrip.antt =====
-- A payload that is marshalled and unmarshalled comes back.
use mev_boost.Common.{
  ℕ, String, Option, List, refl, sym, ◌∙◌, ◌^◌, ◌<◌, ◌≡◌, ◌≢◌, none, some, All, length,
}
use mev_boost.Common.Int.{pos}
use mev_boost.Types.{Bytes, Hash, ExecutionPayloadWithTxRootV1, zero_payload}
use mev_boost.Payload.Decoding.{Holds, unmarshal_json-Holds_iff, some-ne_none}
use mev_boost.Payload.{Codec, EncPayload, DecPayload, marshal_json, unmarshal_json}

-- What encoding/json reads back from the text of a local struct: a value of each field that is
-- not a nil pointer.
abbrev pub read_back : EncPayload → DecPayload
read_back enc = record {
  parent_hash = some enc.parent_hash;
  fee_recipient = some enc.fee_recipient;
  state_root = some enc.state_root;
  receipts_root = some enc.receipts_root;
  logs_bloom = some enc.logs_bloom;
  prev_randao = some enc.prev_randao;
  number = some enc.number;
  gas_limit = some enc.gas_limit;
  gas_used = some enc.gas_used;
  timestamp = some enc.timestamp;
  extra_data = some enc.extra_data;
  base_fee_per_gas = enc.base_fee_per_gas;
  block_hash = some enc.block_hash;
  transactions = enc.transactions;
  transactions_root = some enc.transactions_root;
  fee_recipient_diff = enc.fee_recipient_diff;
}

abbrev pub IsHash : Hash → Type 0
IsHash h = (length h ≡ 32) × All (λ b. b < 256) h

abbrev pub IsBytes : Bytes → Type 0
IsBytes bs = All (λ b. b < 256) bs

-- The values that the fields' Go types can hold, and that their JSON forms can express: a
-- `*hexutil.Big` is not negative and has 256 bits.
pub record IsWritable (enc : EncPayload) : Type 0 where
  pub hashes :
      IsHash enc.parent_hash
      × IsHash enc.state_root
      × IsHash enc.receipts_root
      × IsHash enc.prev_randao
      × IsHash enc.block_hash
      × IsHash enc.transactions_root
  pub address : (length enc.fee_recipient ≡ 20) × IsBytes enc.fee_recipient
  pub slices : IsBytes enc.logs_bloom × IsBytes enc.extra_data
  pub words :
      (enc.number < 2 ^ 64)
      × (enc.gas_limit < 2 ^ 64)
      × (enc.gas_used < 2 ^ 64)
      × (enc.timestamp < 2 ^ 64)
  pub base_fee : (b : ℕ) × (enc.base_fee_per_gas ≡ some (pos b)) × (b < 2 ^ 256)
  pub profit : enc.fee_recipient_diff ≢ none

-- encoding/json and hexutil read back what they wrote.
pub record CodecLaws {Raw : Type 0} (codec : Codec Raw) : Type 0 where
  pub decode-encode :
      (enc : EncPayload) (raw : Raw)
      → IsWritable enc
      → codec.encode enc ≡ some raw
      → codec.decode raw ≡ some (read_back enc)

-- enc of MarshalJSON
abbrev pub local_struct : ExecutionPayloadWithTxRootV1 → EncPayload
local_struct e = record {
  parent_hash = e.parent_hash;
  fee_recipient = e.fee_recipient;
  state_root = e.state_root;
  receipts_root = e.receipts_root;
  logs_bloom = e.logs_bloom;
  prev_randao = e.prev_randao;
  number = e.number;
  gas_limit = e.gas_limit;
  gas_used = e.gas_used;
  timestamp = e.timestamp;
  extra_data = e.extra_data;
  base_fee_per_gas = e.base_fee_per_gas;
  block_hash = e.block_hash;
  transactions = e.transactions;
  transactions_root = e.transactions_root;
  fee_recipient_diff = e.fee_recipient_diff;
}

transactions_read : (o : Option (List String)) → o ≡ (elim o [ none ↦ none | some l ↦ some l ])
transactions_read none = refl
transactions_read (some l) = refl

read_back-Holds :
    (p : ExecutionPayloadWithTxRootV1)
    → IsWritable (local_struct p)
    → Holds (read_back (local_struct p)) zero_payload p
read_back-Holds p w = record {
  parent_hash = refl;
  fee_recipient = refl;
  state_root = refl;
  receipts_root = refl;
  logs_bloom = refl;
  prev_randao = refl;
  number = refl;
  gas_limit = refl;
  gas_used = refl;
  timestamp = refl;
  extra_data = refl;
  block_hash = refl;
  base_fee_per_gas = (refl, λ e. some-ne_none (pos w.base_fee.0) (sym w.base_fee.1 ∙ e));
  transactions = transactions_read p.transactions;
  transactions_root = refl;
  fee_recipient_diff = (refl, w.profit);
}

-- A payload whose values the JSON forms can express, with its base fee and its
-- feeRecipientDiff present, is read back from its own text into a new payload with no error and
-- with every field as it was, if encoding/json reads back what it wrote.
pub unmarshal-marshal :
    {Raw : Type 0} (codec : Codec Raw) (p : ExecutionPayloadWithTxRootV1) (raw : Raw)
    → CodecLaws codec
    → IsWritable (local_struct p)
    → marshal_json codec p ≡ some raw
    → unmarshal_json codec raw zero_payload ≡ (p, none)
unfolding marshal_json
unmarshal-marshal codec p raw laws w h =
    (unmarshal_json-Holds_iff codec raw zero_payload p).1
      (read_back (local_struct p), laws.decode-encode (local_struct p) raw w h, read_back-Holds p w)
