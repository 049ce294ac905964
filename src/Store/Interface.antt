-- ===== src/Store/Interface.antt =====
-- The interface `Store` of lib/store.go, over the type S of its states: what the service may rely
-- on, with the laws that every implementation gives.
use mev_boost.Common.{
  ℕ, String, ◌≡◌, ◌⊎◌, false, List, Option, none, some, ◌==◌, ◌&&◌, if◌then◌else◌, bytes_eq,
  string_eq,
}
use mev_boost.Common.Map.{GoMap, lookup}
use mev_boost.Types.{Hash, ExecutionPayloadWithTxRootV1}

pub record StoreOps (S : Type 0) : Type 0 where
  pub get_execution_payload : Hash → S → Option ExecutionPayloadWithTxRootV1
  pub set_execution_payload : ℕ → Hash → Option ExecutionPayloadWithTxRootV1 → S → S
  pub set_forkchoice_response : ℕ → String → String → String → S → S
  pub get_forkchoice_response : String → S → Option (GoMap String String)
  -- The two parts of `Cleanup`, by the keys that they visit and when.
  pub cleanup_payloads : List (Hash × ℕ) → S → S
  pub cleanup_responses : List (String × ℕ) → S → S

-- The payload id that a relay gave for a boost payload id.
abbrev pub relay_payload_id : {S : Type 0} → StoreOps S → String → String → S → Option String
relay_payload_id ops id url s = elim (ops.get_forkchoice_response id s) [
  | none ↦ none
  | some responses ↦ lookup url responses
]

pub record StoreLaws {S : Type 0} (ops : StoreOps S) : Type 0 where
  pub get-set_payload :
      (now : ℕ) (k j : Hash) (p : ExecutionPayloadWithTxRootV1) (s : S)
      → ops.get_execution_payload j (ops.set_execution_payload now k (some p) s)
        ≡ (if k == j then some p else ops.get_execution_payload j s)
  pub set_nil_payload : (now : ℕ) (k : Hash) (s : S) → ops.set_execution_payload now k none s ≡ s
  pub id-set_response :
      (now : ℕ) (id url rid : String) (id' url' : String) (s : S)
      → relay_payload_id ops id' url' (ops.set_forkchoice_response now id url rid s)
        ≡ (if id == id' && url == url' then some rid else relay_payload_id ops id' url' s)
  pub payload-set_response :
      (now : ℕ) (id url rid : String) (k : Hash) (s : S)
      → ops.get_execution_payload k (ops.set_forkchoice_response now id url rid s)
        ≡ ops.get_execution_payload k s
  pub responses-set_payload :
      (now : ℕ) (k : Hash) (p : Option ExecutionPayloadWithTxRootV1) (id : String) (s : S)
      → ops.get_forkchoice_response id (ops.set_execution_payload now k p s)
        ≡ ops.get_forkchoice_response id s
  pub responses-set_other :
      (now : ℕ) (id url rid id' : String) (s : S)
      → (id == id') ≡ false
      → ops.get_forkchoice_response id' (ops.set_forkchoice_response now id url rid s)
        ≡ ops.get_forkchoice_response id' s
  pub payload-cleanup_payloads :
      (visits : List (Hash × ℕ)) (k : Hash) (s : S)
      → (ops.get_execution_payload k (ops.cleanup_payloads visits s) ≡ none)
        ⊎ (ops.get_execution_payload k (ops.cleanup_payloads visits s)
            ≡ ops.get_execution_payload k s)
  pub payload-cleanup_responses :
      (visits : List (String × ℕ)) (k : Hash) (s : S)
      → ops.get_execution_payload k (ops.cleanup_responses visits s) ≡ ops.get_execution_payload k s
  pub responses-cleanup_responses :
      (visits : List (String × ℕ)) (id : String) (s : S)
      → (ops.get_forkchoice_response id (ops.cleanup_responses visits s) ≡ none)
        ⊎ (ops.get_forkchoice_response id (ops.cleanup_responses visits s)
            ≡ ops.get_forkchoice_response id s)
  pub responses-cleanup_payloads :
      (visits : List (Hash × ℕ)) (id : String) (s : S)
      → ops.get_forkchoice_response id (ops.cleanup_payloads visits s)
        ≡ ops.get_forkchoice_response id s
