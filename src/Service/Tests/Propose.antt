-- ===== src/Service/Tests/Propose.antt =====
-- Runs of `ProposeBlindedBlockV1`, alone and after `GetPayloadHeaderV1`.
use mathlib.Core.Path.{subst}
use mev_boost.Common.{
  ◌≡◌, ◌≢◌, refl, String, none, some, [], ◌∷◌, replicate, ◌==◌, string_eq, if◌then◌else◌,
}
use mev_boost.Common.Int.{lebℤ}
use mev_boost.Common.Map.{lookup}
use mev_boost.Types.{
  ExecutionPayloadWithTxRootV1, zero_payload, BlindedBeaconBlockBodyPartial, BlindedBeaconBlock,
  SignedBlindedBeaconBlock,
}
use mev_boost.Payload.{unmarshal_json}
use mev_boost.Payload.RoundTrip.{read_back, local_struct}
use mev_boost.Payload.Tests.{sample}
use mev_boost.Rpc.{Reply, make_request, parse_rpc_response}
use mev_boost.Store.{Store, new_store, get_execution_payload, set_execution_payload}
use mev_boost.Store.InMemory.{in_memory, in_memory_laws}
use mev_boost.Txroot.Tests.{table_hash-HashLaws, one_transaction_root}
use mev_boost.Service.{returned, no_valid_block}
use mev_boost.Service.Header.{
  reply_payload, byte_txs, get_payload_header_v1, process_replies, process_reply, accept,
  check_root, skips,
}
use mev_boost.Service.Header.Root.{accept-ok}
use mev_boost.Service.Header.Accept.{Verified}
use mev_boost.Service.Propose.{propose_blinded_block_v1, body_block_hash}
use mev_boost.Service.Propose.Replies.{propose_blinded_block_v1-first}
use mev_boost.Service.Reveal.{header-then-propose}
use mev_boost.Service.Tests.{
  Text, payload_text, other_text, body_text, decode, body_of, env, pick, http_of, reply_with,
  relays, swap_two, swap_two-Perm,
}
use mev_boost.Service.Tests.Header.{
  sample_answer, responses, asked_store, asked_store-responses, sample-offered, sample-Verified,
}

abbrev pub body : BlindedBeaconBlockBodyPartial
body = record {
  execution_payload = record { block_hash = "0x01"; block_hash_camel = "" };
  execution_payload_camel = record { block_hash = ""; block_hash_camel = "" };
}

abbrev pub message : BlindedBeaconBlock Text
message = record {
  slot = "1";
  proposer_index = "2";
  parent_root = "";
  state_root = "";
  body = body_text body;
}

abbrev pub block : SignedBlindedBeaconBlock Text
block = record { message = some message; signature = "" }

-- The second relay, whose reply comes first, has no payload, so the first one's is not read.
masked_answer : String → Reply Text
masked_answer url =
    reply_with (if url == "a" then payload_text (read_back (local_struct sample)) else other_text)

propose_blinded_block_v1-first_example :
    propose_blinded_block_v1
      (http_of masked_answer)
      env
      in_memory
      relays
      swap_two
      (some block)
      zero_payload
      new_store
    ≡ returned (zero_payload, some (no_valid_block "0x01"))
unfolding masked_answer make_request parse_rpc_response pick decode unmarshal_json body_block_hash
    get_execution_payload lookup swap_two body_of
propose_blinded_block_v1-first_example =
    propose_blinded_block_v1-first (http_of masked_answer) env in_memory relays swap_two block
      message body zero_payload new_store refl refl

-- What `GetPayloadHeaderV1` leaves: the payload in the store, and its header.
abbrev pub stored : ExecutionPayloadWithTxRootV1
stored = record sample { transactions_root = replicate 32 171 }

abbrev pub header : ExecutionPayloadWithTxRootV1
header = record stored { transactions = none }

abbrev pub stored_state : Store
stored_state = set_execution_payload 0 (replicate 32 1) (some stored) asked_store

accept-sample : accept env in_memory 0 sample asked_store ≡ returned (stored_state, header)
unfolding check_root byte_txs
accept-sample = accept-ok env in_memory 0 sample asked_store _ refl _ one_transaction_root

pub header-returned :
    get_payload_header_v1
      (http_of sample_answer)
      env
      in_memory
      (λ url. 0)
      swap_two
      "0x07"
      zero_payload
      asked_store
    ≡ returned (stored_state, header, none)
unfolding get_payload_header_v1 process_replies process_reply skips sample_answer reply_payload
    make_request parse_rpc_response pick decode unmarshal_json swap_two lebℤ
header-returned =
    rw (get_payload_header_v1, asked_store-responses)
      (rw (process_replies, process_reply, accept-sample) refl)

header-then-propose_example :
    (payload : ExecutionPayloadWithTxRootV1) × (propose_blinded_block_v1
        (http_of sample_answer)
        env
        in_memory
        relays
        swap_two
        (some block)
        zero_payload
        stored_state
      ≡ returned (payload, none))
    × (payload.transactions ≢ none)
    × (header ≡ record payload { transactions = none })
unfolding sample_answer reply_payload make_request parse_rpc_response pick decode unmarshal_json
    body_of body_block_hash
header-then-propose_example =
    header-then-propose (http_of sample_answer) env in_memory (λ url. 0) swap_two "0x07" (7 ∷ [])
      responses asked_store stored_state header table_hash-HashLaws in_memory_laws refl
      asked_store-responses (swap_two-Perm _) refl
      (λ relay p asked offered.
        subst (Verified env in_memory) (sample-offered relay p asked offered) sample-Verified)
      header-returned relays swap_two block message body zero_payload refl refl refl
