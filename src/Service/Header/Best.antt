-- ===== src/Service/Header/Best.antt =====
-- The loop of `GetPayloadHeaderV1` keeps the payload with the best fee.
use mathlib.Core.List.{Mem, mem-cons_self, mem-cons_of_mem}
use mev_boost.Common.{
  ℕ, String, ◌≡◌, refl, ap, ◌⊎◌, inl, inr, Option, none, some, List, [], ◌∷◌, map, Bool, true,
  false, Bool-cases,
}
use mev_boost.Common.Int.{ℤ}
use mev_boost.Common.Orders.{any}
use mev_boost.Types.{ExecutionPayloadWithTxRootV1}
use mev_boost.Rpc.{Http}
use mev_boost.Store.Interface.{StoreOps}
use mev_boost.Txroot.Merkle.Tree.{HashLaws}
use mev_boost.Service.{Env, Outcome, returned, panicked}
use mev_boost.Service.Header.{skips, reply_payload, accept, process_reply, process_replies, ask}
use mev_boost.Service.Header.Fees.{skips_refl, skips_total, not_higher, outbids}
use mev_boost.Service.Header.Accept.{accept-SameHeader, reply_payload-fee, SameHeader}

abbrev pub crashes : Outcome (Option ExecutionPayloadWithTxRootV1) → Bool
crashes panicked = true
crashes (returned p) = false

pub offer-cases :
    (o : Outcome (Option ExecutionPayloadWithTxRootV1))
    → (o ≡ panicked)
      ⊎ (o ≡ returned none)
      ⊎ ((p : ExecutionPayloadWithTxRootV1) × (o ≡ returned (some p)))
offer-cases panicked = inl refl
offer-cases (returned none) = inr (inl refl)
offer-cases (returned (some p)) = inr (inr (p, refl))

module _ {Raw Request Response S : Type 0} (http : Http Raw Request Response) (env : Env Raw)
    (ops : StoreOps S) (now : String → ℕ) where
  -- What a relay offers for the payload id that it gave.
  abbrev pub offer : String × String → Outcome (Option ExecutionPayloadWithTxRootV1)
  offer asked = reply_payload env (ask http env ops now asked).1

  -- The state is what accepting the payload of a relay leaves.
  pub record Accepted (asked : List (String × String)) (s' : S) (r' : ExecutionPayloadWithTxRootV1)
      : Type 0 where
    pub relay : String × String
    pub was_asked : Mem relay asked
    pub payload : ExecutionPayloadWithTxRootV1
    pub offered : offer relay ≡ returned (some payload)
    pub before : S
    pub accepted : accept env ops (now relay.0) payload before ≡ returned (s', r')

  -- What the loop over `asked` makes of the state `(s, r)`.
  pub record Chosen (asked : List (String × String)) (s : S) (r : ExecutionPayloadWithTxRootV1)
      (s' : S) (r' : ExecutionPayloadWithTxRootV1) : Type 0 where
    pub unbeaten : any (λ a. outbids r' (offer a)) asked ≡ false
    pub raised :
        (fee : Option ℤ)
        → skips r.fee_recipient_diff fee ≡ true
        → skips r'.fee_recipient_diff fee ≡ true
    pub source : ((s' ≡ s) × (r' ≡ r)) ⊎ Accepted asked s' r'

  Accepted-later :
      (a : String × String) (asked : List (String × String)) (s' : S)
      (r' : ExecutionPayloadWithTxRootV1)
      → Accepted asked s' r'
      → Accepted (a ∷ asked) s' r'
  Accepted-later a asked s' r' x = record {
    relay = x.relay;
    was_asked = mem-cons_of_mem a x.was_asked;
    payload = x.payload;
    offered = x.offered;
    before = x.before;
    accepted = x.accepted;
  }

  -- A reply that leaves the state as it is.
  Chosen-skip :
      (a : String × String) (asked : List (String × String)) (s s' : S)
      (r r' : ExecutionPayloadWithTxRootV1)
      → outbids r' (offer a) ≡ false
      → Chosen asked s r s' r'
      → Chosen (a ∷ asked) s r s' r'
  Chosen-skip a asked s s' r r' low c = record {
    unbeaten = rw low c.unbeaten;
    raised = c.raised;
    source = elim c.source [ inl same ↦ inl same | inr x ↦ inr (Accepted-later a asked s' r' x) ];
  }

  -- A payload that is accepted.
  Chosen-accept :
      (a : String × String) (asked : List (String × String)) (s s₀ s' : S)
      (r r₀ r' p : ExecutionPayloadWithTxRootV1)
      → offer a ≡ returned (some p)
      → skips r.fee_recipient_diff p.fee_recipient_diff ≡ false
      → accept env ops (now a.0) p s ≡ returned (s₀, r₀)
      → SameHeader p r₀
      → Chosen asked s₀ r₀ s' r'
      → Chosen (a ∷ asked) s r s' r'
  Chosen-accept a asked s s₀ s' r r₀ r' p offered above e same c =
      let fee : r₀.fee_recipient_diff ≡ p.fee_recipient_diff =
        ap (λ x. x.fee_recipient_diff) same in
      let p_fee = reply_payload-fee env ops (ask http env ops now a).1 p offered in
      let kept : skips r'.fee_recipient_diff p.fee_recipient_diff ≡ true =
        c.raised p.fee_recipient_diff (rw fee (skips_refl p.fee_recipient_diff p_fee)) in
      record {
        unbeaten =
            rw (offered, not_higher p.fee_recipient_diff r'.fee_recipient_diff kept) c.unbeaten;
        raised = λ x h.
            c.raised x
              (rw fee (skips_total r.fee_recipient_diff p.fee_recipient_diff p_fee above x h));
        source = elim c.source [
          | inl (at_s, at_r) ↦ inr (record {
            relay = a;
            was_asked = mem-cons_self;
            payload = p;
            offered = offered;
            before = s;
            accepted = rw (at_s, at_r) e;
          })
          | inr x ↦ inr (Accepted-later a asked s' r' x)
        ];
      }

  module _ (laws : HashLaws env.sha256) where
    -- The loop ends, if no reply is a nil response without an error.
    pub process_replies-Chosen :
        (asked : List (String × String)) (s : S) (r : ExecutionPayloadWithTxRootV1)
        → any (λ a. crashes (offer a)) asked ≡ false
        → (s' : S) × (r' : ExecutionPayloadWithTxRootV1) × (process_replies env ops
              (map (ask http env ops now) asked)
              (s, r)
            ≡ returned (s', r'))
          × Chosen asked s r s' r'
    unfolding process_replies process_reply
    process_replies-Chosen [] s r calm =
        (s, r, refl, record { unbeaten = refl; raised = λ fee h. h; source = inl (refl, refl) })
    process_replies-Chosen (a ∷ asked) s r calm = elim (offer-cases (offer a)) [
      | inl crash ↦ absurd (cc (rw crash at calm))
      | inr (inl silent) ↦
          let (s', r', e, c) = process_replies-Chosen asked s r (rw silent at calm) in
          (s', r', rw silent e, Chosen-skip a asked s s' r r' (rw silent refl) c)
      | inr (inr (p, offered)) ↦
          elim (Bool-cases (skips r.fee_recipient_diff p.fee_recipient_diff)) [
            | inl low ↦
                let (s', r', e, c) = process_replies-Chosen asked s r (rw offered at calm) in
                (
                  s',
                  r',
                  rw (offered, low) e,
                  Chosen-skip a asked s s' r r'
                      (rw
                        (
                          offered,
                          not_higher p.fee_recipient_diff r'.fee_recipient_diff (c.raised _ low),
                        )
                        refl)
                      c,
                )
            | inr above ↦
                let ((s₀, r₀), e₀, same) = accept-SameHeader env ops laws (now a.0) p s in
                let (s', r', e, c) = process_replies-Chosen asked s₀ r₀ (rw offered at calm) in
                (
                  s',
                  r',
                  rw (offered, above) (rw e₀ e),
                  Chosen-accept a asked s s₀ s' r r₀ r' p offered above e₀ same c,
                )
          ]
    ]
