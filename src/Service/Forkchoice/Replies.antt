-- ===== src/Service/Forkchoice/Replies.antt =====
-- `ForkchoiceUpdatedV1` by what its goroutines make of the relays' replies.
use mathlib.Core.List.{Perm}
use mev_boost.Common.{
  ℕ, ◌≡◌, refl, ap, ◌∙◌, String, Option, none, some, List, [], ◌∷◌, Bool, true, false, not, ◌||◌,
  ◌&&◌, ◌==◌, string_eq, if◌then◌else◌, arith, inl, inr, ◌⊎◌,
}
use mev_boost.Common.Map.{contains}
use mev_boost.Common.Orders.{any, any-perm, contains-perm}
use mev_boost.Types.{Bytes, Hash, ForkChoiceResponse}
use mev_boost.Rpc.{Http, Param, make_request}
use mev_boost.Store.Interface.{StoreOps, StoreLaws, relay_payload_id}
use mev_boost.Service.{Env, Outcome, returned, panicked, no_valid_relay_response, RelayService}
use mev_boost.Service.Forkchoice.{
  reply_id, method, goroutine, goroutines, forkchoice_updated_v1, compiled,
}
use text.Mathlib.TextEquality.{eq_iff}

abbrev pub crashes : Outcome (Option Bytes) → Bool
crashes (returned id) = false
crashes panicked = true

abbrev pub id_of : Outcome (Option Bytes) → Option Bytes
id_of (returned id) = id
id_of panicked = none

abbrev pub has_id : Option Bytes → Bool
has_id none = false
has_id (some id) = true

abbrev pub or_old : (Bytes → String) → Option Bytes → Option String → Option String
or_old string none old = old
or_old string (some id) old = some (string id)

returned-if :
    {A : Type 0} (b : Bool) (x y : A)
    → (if not b then returned y else returned x) ≡ returned (if b then x else y)
returned-if true x y = refl
returned-if false x y = refl

pub verdict-cases :
    (v : Outcome (Option Bytes))
    → (v ≡ panicked) ⊎ (v ≡ returned none) ⊎ ((id : Bytes) × (v ≡ returned (some id)))
verdict-cases panicked = inl refl
verdict-cases (returned none) = inr (inl refl)
verdict-cases (returned (some id)) = inr (inr (id, refl))

module _ {Raw Request Response : Type 0} (http : Http Raw Request Response) (env : Env Raw)
    (args : List (Param Raw)) where
  -- What a relay makes of the call.
  abbrev pub verdict : String → Outcome (Option Bytes)
  verdict url = reply_id env (make_request http url method args)

  module _ {S : Type 0} (ops : StoreOps S) (now : String → ℕ) (boost_id : String) where
    -- A relay that makes its goroutine panic takes the process down, whatever the others do.
    goroutines-panicked :
        (urls : List String) (s : S × Bool)
        → any (λ url. crashes (verdict url)) urls ≡ true
        → goroutines http env ops now boost_id args urls s ≡ panicked
    unfolding goroutines goroutine
    goroutines-panicked [] s h = cc
    goroutines-panicked (url ∷ urls) (s, valid) h = elim (verdict-cases (verdict url)) [
      | inl crash ↦ rw crash
      | inr (inl silent) ↦ rw silent (goroutines-panicked urls (s, valid) (rw silent at h))
      | inr (inr (id, answer)) ↦ rw answer (goroutines-panicked urls _ (rw answer at h))
    ]

  module _ {S : Type 0} (ops : StoreOps S) (laws : StoreLaws ops) (now : String → ℕ)
      (boost_id : String) where
    -- The ids that a run over `urls` leaves in the store, and whether it found one.
    pub record HasRun (urls : List String) (s : S) (valid : Bool) (s' : S) (valid' : Bool)
        : Type 0 where
      pub ids :
          (id url : String)
          → relay_payload_id ops id url s' ≡ (
              if boost_id == id && contains url urls
              then or_old env.bytes_string (id_of (verdict url)) (relay_payload_id ops id url s)
              else relay_payload_id ops id url s)
      pub payloads : (k : Hash) → ops.get_execution_payload k s' ≡ ops.get_execution_payload k s
      pub found : valid' ≡ (valid || any (λ url. has_id (id_of (verdict url))) urls)

    HasRun-nil : (s : S) (valid : Bool) → HasRun [] s valid s valid
    unfolding contains
    HasRun-nil s valid = record {
      ids = λ id url. ground arith;
      payloads = λ k. refl;
      found = ground arith;
    }

    HasRun-cons_none :
        (url : String) (urls : List String) (s s' : S) (valid valid' : Bool)
        → verdict url ≡ returned none
        → HasRun urls s valid s' valid'
        → HasRun (url ∷ urls) s valid s' valid'
    unfolding contains
    HasRun-cons_none url urls s s' valid valid' e r = record {
      ids = λ id j. ground (arith, r.ids id j, eq_iff url j, ap verdict {x = url} {y = j});
      payloads = r.payloads;
      found = rw e r.found;
    }

    HasRun-cons_some :
        (url : String) (urls : List String) (s s' : S) (valid valid' : Bool) (relay_id : Bytes)
        → verdict url ≡ returned (some relay_id)
        → HasRun urls
            (ops.set_forkchoice_response (now url) boost_id url (env.bytes_string relay_id) s)
            true
            s'
            valid'
        → HasRun (url ∷ urls) s valid s' valid'
    unfolding contains
    HasRun-cons_some url urls s s' valid valid' relay_id e r = record {
      ids = λ id j. ground (
        arith,
        r.ids id j,
        eq_iff url j,
        laws.id-set_response (now url) boost_id url (env.bytes_string relay_id) id j s,
      );
      payloads = λ k.
          r.payloads k
          ∙ laws.payload-set_response (now url) boost_id url (env.bytes_string relay_id) k s;
      found = rw e (ground (arith, r.found));
    }

    goroutines-HasRun :
        (urls : List String) (s : S) (valid : Bool)
        → any (λ url. crashes (verdict url)) urls ≡ false
        → (r : S × Bool) × (goroutines http env ops now boost_id args urls (s, valid) ≡ returned r)
          × HasRun urls s valid r.0 r.1
    unfolding goroutines goroutine
    goroutines-HasRun [] s valid h = ((s, valid), refl, HasRun-nil s valid)
    goroutines-HasRun (url ∷ urls) s valid h = elim (verdict-cases (verdict url)) [
      | inl crash ↦ absurd (cc (rw crash at h))
      | inr (inl silent) ↦
          let (r, e, run) = goroutines-HasRun urls s valid (rw silent at h) in
          (r, rw silent e, HasRun-cons_none url urls s r.0 valid r.1 silent run)
      | inr (inr (id, answer)) ↦
          let s' = ops.set_forkchoice_response (now url) boost_id url (env.bytes_string id) s in
          let (r, e, run) = goroutines-HasRun urls s' true (rw answer at h) in
          (r, rw answer e, HasRun-cons_some url urls s r.0 valid r.1 id answer run)
    ]

  module _ {S : Type 0} (ops : StoreOps S) (now : String → ℕ) (m : RelayService)
      (order : List String → List String) (boost_id : Bytes) (result : ForkChoiceResponse)
      (s : S) where
    -- In terms of what the goroutines make of the replies.
    pub forkchoice_updated_v1-writes :
        StoreLaws ops
        → Perm (order m.relay_urls) m.relay_urls
        → any (λ url. crashes (verdict url)) m.relay_urls ≡ false
        → (s' : S) × (forkchoice_updated_v1 http env ops now m order (some boost_id) args result s
            ≡ returned (
                if any (λ url. has_id (id_of (verdict url))) m.relay_urls
                then (s', compiled boost_id, none)
                else (s', result, some no_valid_relay_response)))
          × ((id url : String)
              → relay_payload_id ops id url s' ≡ (
                  if env.bytes_string boost_id == id && contains url m.relay_urls
                  then or_old env.bytes_string (id_of (verdict url)) (relay_payload_id ops id url s)
                  else relay_payload_id ops id url s))
          × ((k : Hash) → ops.get_execution_payload k s' ≡ ops.get_execution_payload k s)
    unfolding forkchoice_updated_v1
    forkchoice_updated_v1-writes laws perm calm =
        let urls = order m.relay_urls in
        let (r, e, run) =
          goroutines-HasRun ops laws now (env.bytes_string boost_id) urls s false
            (any-perm _ perm ∙ calm) in
        let found : r.1 ≡ any (λ url. has_id (id_of (verdict url))) m.relay_urls =
          run.found ∙ any-perm _ perm in
        (
          r.0,
          rw e
              (rw found (returned-if (any (λ url. has_id (id_of (verdict url))) m.relay_urls) _ _)),
          λ id url. run.ids id url ∙ rw (contains-perm url perm) refl,
          run.payloads,
        )

    pub forkchoice_updated_v1-crashes :
        Perm (order m.relay_urls) m.relay_urls
        → any (λ url. crashes (verdict url)) m.relay_urls ≡ true
        → forkchoice_updated_v1 http env ops now m order (some boost_id) args result s ≡ panicked
    unfolding forkchoice_updated_v1
    forkchoice_updated_v1-crashes perm crash = rw (
        goroutines-panicked ops now (env.bytes_string boost_id) (order m.relay_urls) (s, false)
          (any-perm _ perm ∙ crash))
