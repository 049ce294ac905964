-- ===== src/Payload/Decoding.antt =====
-- `UnmarshalJSON` succeeds exactly on the texts that have every required field.
use mathlib.Core.Path.{subst}
use mev_boost.Common.{
  String, List, refl, sym, ap, ◌∙◌, ◌≡◌, ◌≢◌, ◌↔◌, Option, none, some, inl, inr, arith,
  Option-cases,
}
use mev_boost.Types.{Hash, ExecutionPayloadWithTxRootV1}
use mev_boost.Payload.{
  Statement, and_then, required, optional, Codec, DecPayload, assign_fields, unmarshal_json,
}

-- What the two optional fields become: a text without them leaves what `e` held.
abbrev pub or_old : {A : Type 0} → Option A → A → A
or_old none old = old
or_old (some new) old = new

-- `e` holds the required fields of `dec`, and the optional ones where `dec` has them.
pub record Holds (dec : DecPayload) (old e : ExecutionPayloadWithTxRootV1) : Type 0 where
  pub parent_hash : dec.parent_hash ≡ some e.parent_hash
  pub fee_recipient : dec.fee_recipient ≡ some e.fee_recipient
  pub state_root : dec.state_root ≡ some e.state_root
  pub receipts_root : dec.receipts_root ≡ some e.receipts_root
  pub logs_bloom : dec.logs_bloom ≡ some e.logs_bloom
  pub prev_randao : dec.prev_randao ≡ some e.prev_randao
  pub number : dec.number ≡ some e.number
  pub gas_limit : dec.gas_limit ≡ some e.gas_limit
  pub gas_used : dec.gas_used ≡ some e.gas_used
  pub timestamp : dec.timestamp ≡ some e.timestamp
  pub extra_data : dec.extra_data ≡ some e.extra_data
  pub base_fee_per_gas : (dec.base_fee_per_gas ≡ e.base_fee_per_gas) × (e.base_fee_per_gas ≢ none)
  pub block_hash : dec.block_hash ≡ some e.block_hash
  pub transactions :
      e.transactions ≡ (elim dec.transactions [ none ↦ old.transactions | some l ↦ some l ])
  pub transactions_root : e.transactions_root ≡ or_old dec.transactions_root old.transactions_root
  pub fee_recipient_diff :
      (dec.fee_recipient_diff ≡ e.fee_recipient_diff) × (e.fee_recipient_diff ≢ none)

-- A required field that is followed by a run without an error is there, and was assigned.
required-inv :
    {A : Type 0} (o : Option A) (name : String)
    (assign : A → ExecutionPayloadWithTxRootV1 → ExecutionPayloadWithTxRootV1) (k : Statement)
    (old e : ExecutionPayloadWithTxRootV1)
    → and_then (required o name assign old) k ≡ (e, none)
    → (a : A) × (o ≡ some a) × (k (assign a old) ≡ (e, none))
unfolding required
required-inv none name assign k old e h = absurd (cc h)
required-inv (some a) name assign k old e h = (a, refl, h)

required-step :
    {A : Type 0} (o : Option A) (a : A) (name : String)
    (assign : A → ExecutionPayloadWithTxRootV1 → ExecutionPayloadWithTxRootV1) (k : Statement)
    (old : ExecutionPayloadWithTxRootV1)
    → o ≡ some a
    → and_then (required o name assign old) k ≡ k (assign a old)
unfolding required
required-step o a name assign k old h = rw h

required-done :
    {A : Type 0} (o : Option A) (a : A) (name : String)
    (assign : A → ExecutionPayloadWithTxRootV1 → ExecutionPayloadWithTxRootV1)
    (old : ExecutionPayloadWithTxRootV1)
    → o ≡ some a
    → required o name assign old ≡ (assign a old, none)
unfolding required
required-done o a name assign old h = rw h

pub some-ne_none : {A : Type 0} (a : A) → some a ≢ none
some-ne_none a h = cc

is_there : {A : Type 0} (o : Option A) → o ≢ none → (a : A) × (o ≡ some a)
is_there none h = absurd (h refl)
is_there (some a) h = (a, refl)

required-last :
    {A : Type 0} (o : Option A) (name : String)
    (assign : A → ExecutionPayloadWithTxRootV1 → ExecutionPayloadWithTxRootV1)
    (old e : ExecutionPayloadWithTxRootV1)
    → required o name assign old ≡ (e, none)
    → (a : A) × (o ≡ some a) × (assign a old ≡ e)
unfolding required
required-last none name assign old e h = absurd (cc h)
required-last (some a) name assign old e h = (a, refl, ap (λ x. x.0) h)

optional-transactions :
    (o : Option (List String)) (k : Statement) (old : ExecutionPayloadWithTxRootV1)
    → and_then (optional o (λ v e. record e { transactions = some v }) old) k
      ≡ k (record old { transactions = elim o [ none ↦ old.transactions | some l ↦ some l ] })
unfolding optional
optional-transactions none k old = refl
optional-transactions (some l) k old = refl

optional-transactions_root :
    (o : Option Hash) (k : Statement) (old : ExecutionPayloadWithTxRootV1)
    → and_then (optional o (λ v e. record e { transactions_root = v }) old) k
      ≡ k (record old { transactions_root = or_old o old.transactions_root })
unfolding optional
optional-transactions_root none k old = refl
optional-transactions_root (some root) k old = refl

assign_fields-Holds :
    (dec : DecPayload) (old e : ExecutionPayloadWithTxRootV1)
    → assign_fields dec old ≡ (e, none)
    → Holds dec old e
unfolding assign_fields
assign_fields-Holds dec old e h =
    let (a1, e1, h1) = required-inv dec.parent_hash _ _ _ _ _ h in
    let (a2, e2, h2) = required-inv dec.fee_recipient _ _ _ _ _ h1 in
    let (a3, e3, h3) = required-inv dec.state_root _ _ _ _ _ h2 in
    let (a4, e4, h4) = required-inv dec.receipts_root _ _ _ _ _ h3 in
    let (a5, e5, h5) = required-inv dec.logs_bloom _ _ _ _ _ h4 in
    let (a6, e6, h6) = required-inv dec.prev_randao _ _ _ _ _ h5 in
    let (a7, e7, h7) = required-inv dec.number _ _ _ _ _ h6 in
    let (a8, e8, h8) = required-inv dec.gas_limit _ _ _ _ _ h7 in
    let (a9, e9, h9) = required-inv dec.gas_used _ _ _ _ _ h8 in
    let (a10, e10, h10) = required-inv dec.timestamp _ _ _ _ _ h9 in
    let (a11, e11, h11) = required-inv dec.extra_data _ _ _ _ _ h10 in
    let (a12, e12, h12) = required-inv dec.base_fee_per_gas _ _ _ _ _ h11 in
    let (a13, e13, h13) = required-inv dec.block_hash _ _ _ _ _ h12 in
    let h14 = sym (optional-transactions dec.transactions _ _) ∙ h13 in
    let h15 = sym (optional-transactions_root dec.transactions_root _ _) ∙ h14 in
    let (a16, e16, same) = required-last dec.fee_recipient_diff _ _ _ _ h15 in
    subst (λ x. Holds dec old x) same
      (record {
        parent_hash = e1;
        fee_recipient = e2;
        state_root = e3;
        receipts_root = e4;
        logs_bloom = e5;
        prev_randao = e6;
        number = e7;
        gas_limit = e8;
        gas_used = e9;
        timestamp = e10;
        extra_data = e11;
        base_fee_per_gas = (e12, some-ne_none a12);
        block_hash = e13;
        transactions = refl;
        transactions_root = refl;
        fee_recipient_diff = (e16, some-ne_none a16);
      })

Holds-assign_fields :
    (dec : DecPayload) (old e : ExecutionPayloadWithTxRootV1)
    → Holds dec old e
    → assign_fields dec old ≡ (e, none)
unfolding assign_fields
Holds-assign_fields dec old e h =
    let (b, has_b) = is_there e.base_fee_per_gas h.base_fee_per_gas.1 in
    let (f, has_f) = is_there e.fee_recipient_diff h.fee_recipient_diff.1 in
    required-step dec.parent_hash e.parent_hash _ _ _ _ h.parent_hash
    ∙ required-step dec.fee_recipient e.fee_recipient _ _ _ _ h.fee_recipient
    ∙ required-step dec.state_root e.state_root _ _ _ _ h.state_root
    ∙ required-step dec.receipts_root e.receipts_root _ _ _ _ h.receipts_root
    ∙ required-step dec.logs_bloom e.logs_bloom _ _ _ _ h.logs_bloom
    ∙ required-step dec.prev_randao e.prev_randao _ _ _ _ h.prev_randao
    ∙ required-step dec.number e.number _ _ _ _ h.number
    ∙ required-step dec.gas_limit e.gas_limit _ _ _ _ h.gas_limit
    ∙ required-step dec.gas_used e.gas_used _ _ _ _ h.gas_used
    ∙ required-step dec.timestamp e.timestamp _ _ _ _ h.timestamp
    ∙ required-step dec.extra_data e.extra_data _ _ _ _ h.extra_data
    ∙ required-step dec.base_fee_per_gas b _ _ _ _ (h.base_fee_per_gas.0 ∙ has_b)
    ∙ required-step dec.block_hash e.block_hash _ _ _ _ h.block_hash
    ∙ optional-transactions dec.transactions _ _
    ∙ optional-transactions_root dec.transactions_root _ _
    ∙ required-done dec.fee_recipient_diff f _ _ _ (h.fee_recipient_diff.0 ∙ has_f)
    ∙ ground (arith, has_b, has_f, h.transactions, h.transactions_root)

-- `UnmarshalJSON` returns no error exactly if encoding/json reads the text into the local struct
-- and the resulting payload holds every required field of it, with the two optional fields
-- (transactions and transactionsRoot) left as they were where the text lacks them.
pub unmarshal_json-Holds_iff :
    {Raw : Type 0} (codec : Codec Raw) (input : Raw) (old e : ExecutionPayloadWithTxRootV1)
    → (unmarshal_json codec input old ≡ (e, none))
      ↔ ((dec : DecPayload) × (codec.decode input ≡ some dec) × Holds dec old e)
unfolding unmarshal_json
unmarshal_json-Holds_iff codec input old e = (
  λ h. elim (Option-cases (codec.decode input)) [
    | inl no_dec ↦ cc (rw (no_dec, unmarshal_json) at h)
    | inr (dec, found) ↦
        (dec, found, assign_fields-Holds dec old e (rw (found, unmarshal_json) at h))
  ],
  λ (dec, found, held). rw (found, unmarshal_json) (Holds-assign_fields dec old e held),
)
