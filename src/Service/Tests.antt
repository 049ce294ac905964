-- ===== src/Service/Tests.antt =====
-- Runs of the service at concrete inputs: two relays and a text format whose texts are the decoded
-- values themselves. Byte strings stand for the hexadecimal texts that have them.
mod Channel
mod Forkchoice
mod Header
mod Propose
mod Running
use mathlib.Core.List.{Mem, Perm, mem-cons_self, not-mem-nil, eq-or-mem_of_mem-cons}
use mathlib.Core.List.Perm
use mev_boost.Common.{
  ℕ, ◌≡◌, ◌≢◌, refl, String, Option, none, some, List, [], ◌∷◌, Bool, true, false, ◌==◌, ◌&&◌,
  string_eq, bytes_eq, if◌then◌else◌, replicate, arith, ◌⊎◌, inl, inr,
}
use mev_boost.Common.Int.{ℤ, pos}
use mev_boost.Common.Map.{lookup, insert, contains}
use mev_boost.Types.{
  Bytes, Hash, ExecutionPayloadWithTxRootV1, zero_payload, nil_hash, ForkChoiceResponse,
  BlindedBeaconBlockBodyPartial, BlindedBeaconBlock, SignedBlindedBeaconBlock,
}
use mev_boost.Payload.{Codec, DecPayload}
use mev_boost.Payload.RoundTrip.{read_back, local_struct}
use mev_boost.Payload.Tests.{sample}
use mev_boost.Rpc.{
  Http, RpcRequest, RpcResponse, RpcError, Reply, Param, done, make_request, parse_rpc_response,
}
use mev_boost.Store.{Store, new_store, set_forkchoice_response}
use mev_boost.Store.Interface.{relay_payload_id}
use mev_boost.Store.InMemory.{in_memory, in_memory_laws}
use mev_boost.Txroot.Tests.{table_hash, table_hash-HashLaws}
use mev_boost.Service.{Env, RelayService, Outcome, returned, panicked}
use mev_boost.Service.Forkchoice.{forkchoice_updated_v1, compiled, reply_id, response_id, status_ok}
use mev_boost.Service.Forkchoice.Replies.{or_old, id_of, verdict}

-- The texts: a payload, the answer to a forkchoice call, a block body, or another one.
data Text : Type 0 where
  payload_text : DecPayload → Text
  forkchoice_text : ForkChoiceResponse → Text
  body_text : BlindedBeaconBlockBodyPartial → Text
  answer_of : String → Text
  other_text : Text

decode : Text → Option DecPayload
decode (payload_text dec) = some dec
decode (forkchoice_text r) = none
decode (body_text b) = none
decode (answer_of url) = none
decode other_text = none

forkchoice_of : Text → Option ForkChoiceResponse
forkchoice_of (forkchoice_text r) = some r
forkchoice_of (payload_text dec) = none
forkchoice_of (body_text b) = none
forkchoice_of (answer_of url) = none
forkchoice_of other_text = none

body_of : Text → Option BlindedBeaconBlockBodyPartial
body_of (body_text b) = some b
body_of (forkchoice_text r) = none
body_of (payload_text dec) = none
body_of (answer_of url) = none
body_of other_text = none

abbrev env : Env Text
env = record {
  codec = record { encode = λ enc. some (payload_text (read_back enc)); decode = decode };
  unmarshal_forkchoice = forkchoice_of;
  unmarshal_body = body_of;
  unmarshal_text = λ s. if s == "0x07" then some (7 ∷ []) else none;
  bytes_string = λ bs. if bs == 7 ∷ [] then "0x07" else "0x09";
  hex_to_hash = λ s. if s == "0x01" then replicate 32 1 else nil_hash;
  hex_to_bytes = λ s. 1 ∷ [];
  bytes_to_hash = λ bs. bs;
  is_transaction = λ bs. true;
  sha256 = table_hash;
}

-- What a relay answers, by its url: a request is the url, and so is a response.
pick : (String → Reply Text) → Text → RpcResponse Text → Reply Text
pick answer (answer_of url) zero = answer url
pick answer (payload_text dec) zero = answer ""
pick answer (forkchoice_text r) zero = answer ""
pick answer (body_text b) zero = answer ""
pick answer other_text zero = answer ""

abbrev http_of : (String → Reply Text) → Http Text String String
http_of answer = record {
  nil_text = other_text;
  marshal = λ req. done other_text;
  new_request = λ verb url body. done url;
  add_header = λ key value req. req;
  send = λ req. done req;
  read_all = λ resp. done (answer_of resp);
  unmarshal_response = pick answer;
}

abbrev reply_with : Text → Reply Text
reply_with body = record {
  res = some (record { id = "1"; jsonrpc = "2.0"; result = body; error = none });
  err = none;
}

-- The body `null`.
abbrev nil_reply : Reply Text
nil_reply = record { res = none; err = none }

abbrev relays : RelayService
relays = record { relay_urls = "a" ∷ "b" ∷ [] }

-- The second comes first.
pub swap_two : {A : Type 0} → List A → List A
swap_two [] = []
swap_two (x ∷ []) = x ∷ []
swap_two (x ∷ y ∷ xs) = y ∷ x ∷ xs

swap_two-Perm : {A : Type 0} (xs : List A) → Perm (swap_two xs) xs
unfolding swap_two
swap_two-Perm [] = Perm.rfl
swap_two-Perm (x ∷ []) = Perm.rfl
swap_two-Perm (x ∷ y ∷ xs) = Perm.swap x y xs
