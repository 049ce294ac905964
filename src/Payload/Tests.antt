-- ===== src/Payload/Tests.antt =====
-- Runs of the payload's encoding, with a codec whose texts are the decoded structs.
use mev_boost.Common.{◌≡◌, ◌↔◌, refl, sym, none, some, [], ◌∷◌, replicate, arith}
use mev_boost.Common.Int.{pos}
use mev_boost.Types.{ExecutionPayloadWithTxRootV1, zero_payload}
use mev_boost.Payload.{Codec, DecPayload, marshal_json, unmarshal_json}
use mev_boost.Payload.Decoding.{Holds, unmarshal_json-Holds_iff}
use mev_boost.Payload.RoundTrip.{read_back, CodecLaws, IsWritable, local_struct, unmarshal-marshal}

abbrev pub dec_codec : Codec DecPayload
dec_codec = record { encode = λ enc. some (read_back enc); decode = λ raw. some raw }

dec_codec-CodecLaws : CodecLaws dec_codec
dec_codec-CodecLaws = record { decode-encode = λ enc raw writable h. sym h }

abbrev pub sample : ExecutionPayloadWithTxRootV1
sample = record zero_payload {
  block_hash = replicate 32 1;
  base_fee_per_gas = some (pos 7);
  fee_recipient_diff = some (pos 12);
  transactions = some ("f86b" ∷ []);
}

sample-IsWritable : IsWritable (local_struct sample)
sample-IsWritable = record {
  hashes = ground arith;
  address = ground arith;
  slices = (tt, tt);
  words = ground arith;
  base_fee = (7, refl, omega arith);
  profit = λ h. cc;
}

unmarshal_json-Holds_iff_example :
    (unmarshal_json dec_codec (read_back (local_struct sample)) zero_payload ≡ (sample, none)) ↔ (
      (dec : DecPayload) × (some (read_back (local_struct sample)) ≡ some dec)
      × Holds dec zero_payload sample)
unmarshal_json-Holds_iff_example =
    unmarshal_json-Holds_iff dec_codec (read_back (local_struct sample)) zero_payload sample

unmarshal-marshal_example :
    unmarshal_json dec_codec (read_back (local_struct sample)) zero_payload ≡ (sample, none)
unfolding marshal_json
unmarshal-marshal_example =
    unmarshal-marshal dec_codec sample (read_back (local_struct sample)) dec_codec-CodecLaws
      sample-IsWritable refl
