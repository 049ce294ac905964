-- ===== src/Service/Forkchoice/Stores.antt =====
-- `ForkchoiceUpdatedV1` by the replies of the relays.
use mathlib.Core.List.{Perm}
use mev_boost.Common.{
  ℕ, ◌≡◌, ap, String, Option, none, some, List, true, false, ◌&&◌, ◌==◌, string_eq, if◌then◌else◌,
  inl, inr, ◌⊎◌, Bool-cases,
}
use mev_boost.Common.Map.{contains}
use mev_boost.Common.Orders.{any, any-found, any-here}
use mev_boost.Types.{Bytes, Hash, ForkChoiceResponse}
use mev_boost.Rpc.{Http, Param, Reply, make_request}
use mev_boost.Store.Interface.{StoreOps, StoreLaws, relay_payload_id}
use mev_boost.Service.{Env, Outcome, returned, panicked, no_valid_relay_response, RelayService}
use mev_boost.Service.Forkchoice.{method, forkchoice_updated_v1, compiled}
use mev_boost.Service.Forkchoice.Accepted.{
  IsNil, Accepts, Accepts-reply_id, reply_id-Accepts, reply_id-IsNil, IsNil-reply_id,
}
use mev_boost.Service.Forkchoice.Replies.{
  crashes, id_of, has_id, or_old, verdict, verdict-cases, forkchoice_updated_v1-writes,
  forkchoice_updated_v1-crashes,
}

module _ {Raw Request Response : Type 0} (http : Http Raw Request Response) (env : Env Raw)
    (args : List (Param Raw)) (m : RelayService) where
  -- What the relay replies to the call.
  abbrev pub reply_of : String → Reply Raw
  reply_of url = make_request http url method args

  -- A relay of the service gives the payload id.
  abbrev pub Gives : String → Bytes → Type 0
  Gives url id = (contains url m.relay_urls ≡ true) × Accepts env (reply_of url) id

  no_crash :
      ((url : String) → contains url m.relay_urls ≡ true → ¬ IsNil (reply_of url))
      → any (λ url. crashes (verdict http env args url)) m.relay_urls ≡ false
  no_crash calm =
      elim (Bool-cases (any (λ url. crashes (verdict http env args url)) m.relay_urls)) [
        | inr none_crashes ↦ none_crashes
        | inl some_crashes ↦
            let (url, has, crash) =
              any-found (λ url. crashes (verdict http env args url)) m.relay_urls some_crashes in
            elim (verdict-cases (verdict http env args url)) [
              | inl panics ↦ absurd (calm url has (reply_id-IsNil env (reply_of url) panics))
              | inr (inl silent) ↦ absurd (cc (rw silent at crash))
              | inr (inr (id, answer)) ↦ absurd (cc (rw answer at crash))
            ]
      ]

  has_id-Gives :
      (url : String)
      → contains url m.relay_urls ≡ true
      → has_id (id_of (verdict http env args url)) ≡ true
      → (id : Bytes) × Gives url id
  has_id-Gives url has passes = elim (verdict-cases (verdict http env args url)) [
    | inl panics ↦ absurd (cc (rw panics at passes))
    | inr (inl silent) ↦ absurd (cc (rw silent at passes))
    | inr (inr (id, answer)) ↦ (id, (has, reply_id-Accepts env (reply_of url) id answer))
  ]

  Gives-has_id :
      (url : String) (id : Bytes)
      → Gives url id
      → any (λ url. has_id (id_of (verdict http env args url))) m.relay_urls ≡ true
  Gives-has_id url id (has, accepts) =
      let answer = Accepts-reply_id env (reply_of url) id accepts in
      any-here (λ url. has_id (id_of (verdict http env args url))) m.relay_urls url has
        (ap (λ v. has_id (id_of v)) answer)

  some_Gives :
      {A : Type 0} (ends : Outcome A) (good bad : A)
      → ends
        ≡ returned (
            if any (λ url. has_id (id_of (verdict http env args url))) m.relay_urls
            then good
            else bad)
      → (((url : String) × (relay_id : Bytes) × Gives url relay_id) × (ends ≡ returned good))
        ⊎ ((¬ ((url : String) × (relay_id : Bytes) × Gives url relay_id)) × (ends ≡ returned bad))
  some_Gives ends good bad e =
      elim (Bool-cases (any (λ url. has_id (id_of (verdict http env args url))) m.relay_urls)) [
        | inl found ↦
            let (url, has, passes) =
              any-found (λ url. has_id (id_of (verdict http env args url))) m.relay_urls found in
            let (id, gives) = has_id-Gives url has passes in inl ((url, id, gives), rw found at e)
        | inr absent ↦
            inr (λ (url, id, gives). cc (Gives-has_id url id gives, absent), rw absent at e)
      ]

  -- The id under which the ids are stored, and the one that a relay gives.
  abbrev pub IsStored : Bytes → String → String → Bytes → Type 0
  IsStored boost_id id url relay_id = (env.bytes_string boost_id ≡ id) × Gives url relay_id

  one-IsStored :
      (boost_id : Bytes) (id url : String) (old new : Option String)
      → new ≡ (
          if env.bytes_string boost_id == id && contains url m.relay_urls
          then or_old env.bytes_string (id_of (verdict http env args url)) old
          else old)
      → ((relay_id : Bytes) × IsStored boost_id id url relay_id
          × (new ≡ some (env.bytes_string relay_id)))
        ⊎ ((¬ ((relay_id : Bytes) × IsStored boost_id id url relay_id)) × (new ≡ old))
  one-IsStored boost_id id url old new e = elim (Bool-cases (env.bytes_string boost_id == id)) [
    | inr other ↦ inr (
      λ (relay_id, (key, gives)).
          cc ((string_eq.beq_iff (env.bytes_string boost_id) id).1 key, other),
      rw other at e,
    )
    | inl same ↦ elim (Bool-cases (contains url m.relay_urls)) [
      | inr absent ↦
          inr (λ (relay_id, (key, (has, accepts))). cc (has, absent), rw absent at (rw same at e))
      | inl has ↦
          let taken = rw has at (rw same at e) in
          elim (verdict-cases (verdict http env args url)) [
            | inl panics ↦ inr (
              λ (relay_id, (key, (there, accepts))).
                  cc (Accepts-reply_id env (reply_of url) relay_id accepts, panics),
              rw panics at taken,
            )
            | inr (inl silent) ↦ inr (
              λ (relay_id, (key, (there, accepts))).
                  cc (Accepts-reply_id env (reply_of url) relay_id accepts, silent),
              rw silent at taken,
            )
            | inr (inr (relay_id, answer)) ↦ inl (
              relay_id,
              (
                (string_eq.beq_iff (env.bytes_string boost_id) id).0 same,
                (has, reply_id-Accepts env (reply_of url) relay_id answer),
              ),
              rw answer at taken,
            )
          ]
    ]
  ]

  module _ {S : Type 0} (ops : StoreOps S) (now : String → ℕ) (order : List String → List String)
      (boost_id : Bytes) (result : ForkChoiceResponse) (s : S) where
    -- If no relay of the service replies with a nil response without an error, and whatever the order
    -- of the goroutines, `ForkchoiceUpdatedV1` returns. If a relay gives a payload id, with a reply
    -- and a response that have no error and a result with an accepted status, it returns the boost
    -- payload id, and if none does, an error and the old result. It leaves in the store, under the boost
    -- payload id, the payload id that each such relay gave; every other payload id and every execution
    -- payload is as before. It is assumed that the store keeps the laws of its interface.
    pub forkchoice_updated_v1-stores :
        StoreLaws ops
        → Perm (order m.relay_urls) m.relay_urls
        → ((url : String) → contains url m.relay_urls ≡ true → ¬ IsNil (reply_of url))
        → (s' : S) × ((((url : String) × (relay_id : Bytes) × Gives url relay_id)
              × (forkchoice_updated_v1 http env ops now m order (some boost_id) args result s
                  ≡ returned (s', compiled boost_id, none)))
            ⊎ ((¬ ((url : String) × (relay_id : Bytes) × Gives url relay_id))
                × (forkchoice_updated_v1 http env ops now m order (some boost_id) args result s
                    ≡ returned (s', result, some no_valid_relay_response))))
          × ((id url : String)
              → ((relay_id : Bytes) × IsStored boost_id id url relay_id
                  × (relay_payload_id ops id url s' ≡ some (env.bytes_string relay_id)))
                ⊎ ((¬ ((relay_id : Bytes) × IsStored boost_id id url relay_id))
                    × (relay_payload_id ops id url s' ≡ relay_payload_id ops id url s)))
          × ((k : Hash) → ops.get_execution_payload k s' ≡ ops.get_execution_payload k s)
    forkchoice_updated_v1-stores laws perm calm =
        let (s', ends, ids, payloads) =
          forkchoice_updated_v1-writes http env args ops now m order boost_id result s laws perm
            (no_crash calm) in
        (
          s',
          some_Gives (forkchoice_updated_v1 http env ops now m order (some boost_id) args result s)
              (s', compiled boost_id, none) (s', result, some no_valid_relay_response) ends,
          λ id url.
              one-IsStored boost_id id url (relay_payload_id ops id url s)
                (relay_payload_id ops id url s') (ids id url),
          payloads,
        )

    -- If a relay of the service replies with a nil response and no error, as it is for the text `null`,
    -- then `ForkchoiceUpdatedV1` panics, whatever the other relays reply and in whatever order the
    -- goroutines run.
    pub forkchoice_updated_v1-panicked :
        (url : String)
        → Perm (order m.relay_urls) m.relay_urls
        → contains url m.relay_urls ≡ true
        → IsNil (reply_of url)
        → forkchoice_updated_v1 http env ops now m order (some boost_id) args result s ≡ panicked
    forkchoice_updated_v1-panicked url perm has is_nil =
        forkchoice_updated_v1-crashes http env args ops now m order boost_id result s perm (
          any-here (λ url. crashes (verdict http env args url)) m.relay_urls url has
            (ap crashes (IsNil-reply_id env (reply_of url) is_nil)))
