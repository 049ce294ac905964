-- ===== src/Service/Forkchoice/Accepted.antt =====
-- What a relay's reply to a call of `ForkchoiceUpdatedV1` must be for its payload id to be taken.
use mev_boost.Common.{
  ◌≡◌, refl, ap, ◌⊎◌, inl, inr, String, none, some, true, ◌==◌, string_eq, arith, Option-cases,
  Bool-cases,
}
use mev_boost.Types.{Bytes, ForkChoiceResponse}
use mev_boost.Rpc.{Reply, RpcResponse}
use mev_boost.Service.{Env, returned, panicked}
use mev_boost.Service.Forkchoice.{status_ok, response_id, reply_id}

-- A nil response without an error.
abbrev pub IsNil : {Raw : Type 0} → Reply Raw → Type 0
IsNil reply = (reply.err ≡ none) × (reply.res ≡ none)

module _ {Raw : Type 0} (env : Env Raw) where
  -- The call of the relay had no error, nor has the response, whose result is read as a response
  -- with the status VALID, SUCCESS or none and with the payload id.
  pub record Accepts (reply : Reply Raw) (id : Bytes) : Type 0 where
    pub response : RpcResponse Raw
    pub result : ForkChoiceResponse
    pub no_failure : reply.err ≡ none
    pub replied : reply.res ≡ some response
    pub no_error : response.error ≡ none
    pub read : env.unmarshal_forkchoice response.result ≡ some result
    pub status :
        (result.payload_status.status ≡ "VALID")
        ⊎ (result.payload_status.status ≡ "SUCCESS")
        ⊎ (result.payload_status.status ≡ "")
    pub has_id : result.payload_id ≡ some id

  status_ok-valid :
      (status : String)
      → (status ≡ "VALID") ⊎ (status ≡ "SUCCESS") ⊎ (status ≡ "")
      → status_ok status ≡ true
  unfolding status_ok
  status_ok-valid status (inl valid) = rw (valid, status_ok) refl
  status_ok-valid status (inr (inl success)) = rw (success, status_ok) refl
  status_ok-valid status (inr (inr empty)) = rw (empty, status_ok) refl

  valid-status_ok :
      (status : String)
      → status_ok status ≡ true
      → (status ≡ "VALID") ⊎ (status ≡ "SUCCESS") ⊎ (status ≡ "")
  unfolding status_ok
  valid-status_ok status h = elim (Bool-cases (status == "VALID")) [
    | inl valid ↦ inl ((string_eq.beq_iff status "VALID").0 valid)
    | inr not_valid ↦ elim (Bool-cases (status == "SUCCESS")) [
      | inl success ↦ inr (inl ((string_eq.beq_iff status "SUCCESS").0 success))
      | inr no_success ↦
          inr (inr ((string_eq.beq_iff status "").0 (ground (arith, h, not_valid, no_success))))
    ]
  ]

  pub Accepts-reply_id :
      (reply : Reply Raw) (id : Bytes) → Accepts reply id → reply_id env reply ≡ returned (some id)
  unfolding reply_id response_id
  Accepts-reply_id reply id a =
      rw (a.no_failure, reply_id)
        (rw (a.replied, reply_id)
          (rw (a.no_error, response_id)
            (rw (a.read, response_id)
              (rw (status_ok-valid a.result.payload_status.status a.status)
                (ap (λ o. returned o) a.has_id)))))

  response_id-Accepts :
      (reply : Reply Raw) (response : RpcResponse Raw) (id : Bytes)
      → reply.err ≡ none
      → reply.res ≡ some response
      → response_id env response ≡ some id
      → Accepts reply id
  unfolding response_id
  response_id-Accepts reply response id no_failure replied e = elim (Option-cases response.error) [
    | inr (error, has_error) ↦ absurd (cc (rw (has_error, response_id) at e))
    | inl no_error ↦ elim (Option-cases (env.unmarshal_forkchoice response.result)) [
      | inl unread ↦ absurd (cc (rw (unread, response_id) at (rw (no_error, response_id) at e)))
      | inr (result, read) ↦
          let taken = rw (read, response_id) at (rw (no_error, response_id) at e) in
          elim (Bool-cases (status_ok result.payload_status.status)) [
            | inr bad ↦ absurd (cc (rw bad at taken))
            | inl good ↦ record {
              response = response;
              result = result;
              no_failure = no_failure;
              replied = replied;
              no_error = no_error;
              read = read;
              status = valid-status_ok result.payload_status.status good;
              has_id = rw good at taken;
            }
          ]
    ]
  ]

  pub reply_id-Accepts :
      (reply : Reply Raw) (id : Bytes) → reply_id env reply ≡ returned (some id) → Accepts reply id
  unfolding reply_id response_id
  reply_id-Accepts reply id e = elim (Option-cases reply.err) [
    | inr (failure, failed) ↦ absurd (cc (rw (failed, reply_id) at e))
    | inl no_failure ↦ elim (Option-cases reply.res) [
      | inl no_response ↦
          absurd (cc (rw (no_response, reply_id) at (rw (no_failure, reply_id) at e)))
      | inr (response, replied) ↦
          response_id-Accepts reply response id no_failure replied
            (cc (rw (replied, reply_id) at (rw (no_failure, reply_id) at e)))
    ]
  ]

  pub reply_id-IsNil : (reply : Reply Raw) → reply_id env reply ≡ panicked → IsNil reply
  unfolding reply_id
  reply_id-IsNil reply e = elim (Option-cases reply.err) [
    | inr (failure, failed) ↦ absurd (cc (rw (failed, reply_id) at e))
    | inl no_failure ↦ elim (Option-cases reply.res) [
      | inl no_response ↦ (no_failure, no_response)
      | inr (response, replied) ↦
          absurd (cc (rw (replied, reply_id) at (rw (no_failure, reply_id) at e)))
    ]
  ]

  pub IsNil-reply_id : (reply : Reply Raw) → IsNil reply → reply_id env reply ≡ panicked
  unfolding reply_id
  IsNil-reply_id reply (no_failure, no_response) =
      rw (no_failure, reply_id) (rw (no_response, reply_id) refl)
