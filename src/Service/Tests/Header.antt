-- ===== src/Service/Tests/Header.antt =====
-- Runs of `GetPayloadHeaderV1`.
use mathlib.Core.Path.{subst}
use mev_boost.Common.Orders.{any}
use mathlib.Core.List.{Mem, mem-cons_self}
use mev_boost.Common.{
  ◌≡◌, refl, String, none, some, List, [], ◌∷◌, false, ◌==◌, string_eq, bytes_eq, if◌then◌else◌,
  replicate, ◌⊎◌, inl,
}
use mev_boost.Common.Int.{pos}
use mev_boost.Common.Map.{lookup, insert}
use mev_boost.Types.{ExecutionPayloadWithTxRootV1, zero_payload, nil_hash}
use mev_boost.Payload.{unmarshal_json}
use mev_boost.Payload.RoundTrip.{read_back, local_struct}
use mev_boost.Payload.Tests.{sample}
use mev_boost.Rpc.{Reply, make_request, parse_rpc_response}
use mev_boost.Store.{Store, new_store, set_forkchoice_response, get_forkchoice_response}
use mev_boost.Store.InMemory.{in_memory, in_memory_laws}
use mev_boost.Txroot.Tests.{table_hash-HashLaws, one_transaction_root}
use mev_boost.Service.{returned, no_valid_header}
use mev_boost.Service.Header.{reply_payload, byte_txs, get_payload_header_v1}
use mev_boost.Service.Header.Accept.{Verified, Revealable, Mismatched, SameHeader}
use mev_boost.Service.Header.Fees.{outbids}
use mev_boost.Service.Header.Best.{offer}
use mev_boost.Service.Header.Choice.{
  get_payload_header_v1-best, get_payload_header_v1-reveals, get_payload_header_v1-Mismatched,
}
use mev_boost.Service.Tests.{
  Text, payload_text, decode, env, pick, http_of, reply_with, swap_two, swap_two-Perm,
}

-- The payload ids that the two relays gave, in the store.
abbrev pub responses : List (String × String)
responses = ("a", "0x08") ∷ ("b", "0x09") ∷ []

unfoldable pub asked_store : Store
asked_store =
    set_forkchoice_response 0 "0x07" "b" "0x09"
      (set_forkchoice_response 0 "0x07" "a" "0x08" new_store)

pub asked_store-responses : get_forkchoice_response "0x07" asked_store ≡ some responses
unfolding asked_store set_forkchoice_response get_forkchoice_response lookup insert
asked_store-responses = refl

abbrev low : ExecutionPayloadWithTxRootV1
low = record sample { fee_recipient_diff = some (pos 3) }

-- The first relay offers a fee of 3, the second one of 12.
header_answer : String → Reply Text
header_answer url =
    reply_with (payload_text (read_back (local_struct (if url == "a" then low else sample))))

best_offer :
    offer (http_of header_answer) env in_memory (λ url. 0) ("b", "0x09") ≡ returned (some sample)
unfolding header_answer reply_payload make_request parse_rpc_response pick decode unmarshal_json
best_offer = refl

get_payload_header_v1-best_example :
    (s' : Store) × (r : ExecutionPayloadWithTxRootV1) × (get_payload_header_v1
        (http_of header_answer)
        env
        in_memory
        (λ url. 0)
        swap_two
        "0x07"
        zero_payload
        asked_store
      ≡ returned (s', r, if r.block_hash == nil_hash then some (no_valid_header "0x07") else none))
    × (any
          (λ relay. outbids r (offer (http_of header_answer) env in_memory (λ url. 0) relay))
          responses
        ≡ false)
    × ((r ≡ zero_payload)
        ⊎ ((relay : String × String) × (p : ExecutionPayloadWithTxRootV1) × Mem relay responses
            × (offer (http_of header_answer) env in_memory (λ url. 0) relay ≡ returned (some p))
            × SameHeader p r))
unfolding header_answer reply_payload make_request parse_rpc_response pick decode unmarshal_json
get_payload_header_v1-best_example =
    get_payload_header_v1-best (http_of header_answer) env in_memory (λ url. 0) swap_two "0x07"
      (7 ∷ []) responses asked_store table_hash-HashLaws refl asked_store-responses
      (swap_two-Perm _) refl

-- Every relay offers the same payload.
unfoldable pub sample_answer : String → Reply Text
sample_answer url = reply_with (payload_text (read_back (local_struct sample)))

pub sample-offered :
    (relay : String × String) (p : ExecutionPayloadWithTxRootV1)
    → Mem relay responses
    → offer (http_of sample_answer) env in_memory (λ url. 0) relay ≡ returned (some p)
    → sample ≡ p
unfolding sample_answer reply_payload make_request parse_rpc_response pick decode unmarshal_json
sample-offered relay p asked offered = cc offered

pub sample-Verified : Verified env in_memory sample
unfolding byte_txs
sample-Verified = record {
  txs = "f86b" ∷ [];
  root = replicate 32 171;
  has_txs = refl;
  computed = one_transaction_root;
  declared = refl;
}

get_payload_header_v1-reveals_example :
    (s' : Store) × (r : ExecutionPayloadWithTxRootV1) × (get_payload_header_v1
        (http_of sample_answer)
        env
        in_memory
        (λ url. 0)
        swap_two
        "0x07"
        zero_payload
        asked_store
      ≡ returned (s', r, if r.block_hash == nil_hash then some (no_valid_header "0x07") else none))
    × (((s' ≡ asked_store) × (r ≡ zero_payload)) ⊎ Revealable env in_memory s' r)
unfolding sample_answer reply_payload make_request parse_rpc_response pick decode unmarshal_json
get_payload_header_v1-reveals_example =
    get_payload_header_v1-reveals (http_of sample_answer) env in_memory (λ url. 0) swap_two "0x07"
      (7 ∷ []) responses asked_store table_hash-HashLaws in_memory_laws refl asked_store-responses
      (swap_two-Perm _) refl
      (λ relay p asked offered.
        subst (Verified env in_memory) (sample-offered relay p asked offered) sample-Verified)

-- The root that the relays declare is not that of the transactions.
abbrev bad : ExecutionPayloadWithTxRootV1
bad = record sample { transactions_root = replicate 32 5 }

bad_answer : String → Reply Text
bad_answer url = reply_with (payload_text (read_back (local_struct bad)))

bad-Mismatched : Mismatched env in_memory bad
unfolding byte_txs
bad-Mismatched = record {
  txs = "f86b" ∷ [];
  root = replicate 32 171;
  has_txs = refl;
  computed = one_transaction_root;
  declared = refl;
  differs = refl;
}

get_payload_header_v1-Mismatched_example :
    (s' : Store) × (get_payload_header_v1
        (http_of bad_answer)
        env
        in_memory
        (λ url. 0)
        swap_two
        "0x07"
        zero_payload
        asked_store
      ≡ returned (s', bad, none))
unfolding bad_answer reply_payload make_request parse_rpc_response pick decode unmarshal_json
get_payload_header_v1-Mismatched_example =
    get_payload_header_v1-Mismatched (http_of bad_answer) env in_memory (λ url. 0) swap_two "0x07"
      (7 ∷ []) responses asked_store table_hash-HashLaws refl asked_store-responses
      (swap_two-Perm _) refl ("a", "0x08") bad mem-cons_self refl bad-Mismatched refl
      (λ relay q asked offered. inl (cc offered))
