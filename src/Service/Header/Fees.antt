-- ===== src/Service/Header/Fees.antt =====
-- The comparison of two fees in `GetPayloadHeaderV1`.
use mev_boost.Common.{◌≡◌, ◌≢◌, refl, Option, none, some, Bool, true, false, not, arith}
use mev_boost.Common.Int.{ℤ, lebℤ, lebℤ-sound, lebℤ-total, lebℤ-complete, ≤ℤ_trans, ≤ℤ_refl}
use mev_boost.Types.{ExecutionPayloadWithTxRootV1}
use mev_boost.Service.{Outcome, returned, panicked}
use mev_boost.Service.Header.{skips}

pub skips-none : (fee : Option ℤ) → skips none fee ≢ true
unfolding skips
skips-none fee h = cc

pub skips_refl : (fee : Option ℤ) → fee ≢ none → skips fee fee ≡ true
unfolding skips
skips_refl none h = absurd (h refl)
skips_refl (some fee) h = lebℤ-complete fee fee (≤ℤ_refl fee)

pub skips_total :
    (a b : Option ℤ)
    → b ≢ none
    → skips a b ≡ false
    → (c : Option ℤ) → skips a c ≡ true
    → skips b c ≡ true
unfolding skips
skips_total none b b_ne h c k = cc
skips_total (some a) none b_ne h c k = absurd (b_ne refl)
skips_total (some a) (some b) b_ne h none k = refl
skips_total (some a) (some b) b_ne h (some c) k =
    lebℤ-complete c b (≤ℤ_trans c a b (lebℤ-sound c a k) (lebℤ-total b a h))

-- The one fee is above the other, where a missing fee is below every other.
abbrev pub higher : Option ℤ → Option ℤ → Bool
higher new none = true
higher none (some best) = false
higher (some new) (some best) = not (lebℤ new best)

higher-skips : (new best : Option ℤ) → higher new best ≡ not (skips best new)
unfolding skips
higher-skips none none = refl
higher-skips (some new) none = refl
higher-skips none (some best) = refl
higher-skips (some new) (some best) = refl

pub not_higher : (new best : Option ℤ) → skips best new ≡ true → higher new best ≡ false
not_higher new best h = ground (arith, higher-skips new best)

-- A relay's payload has a higher fee than the header.
abbrev pub outbids :
    ExecutionPayloadWithTxRootV1 → Outcome (Option ExecutionPayloadWithTxRootV1) → Bool
outbids r panicked = false
outbids r (returned none) = false
outbids r (returned (some p)) = higher p.fee_recipient_diff r.fee_recipient_diff

pub not_outbid :
    (r p : ExecutionPayloadWithTxRootV1) (o : Outcome (Option ExecutionPayloadWithTxRootV1))
    → o ≡ returned (some p)
    → outbids r o ≡ false
    → skips r.fee_recipient_diff p.fee_recipient_diff ≡ true
not_outbid r p o offered h =
    let low : higher p.fee_recipient_diff r.fee_recipient_diff ≡ false = rw offered at h in
    ground (arith, higher-skips p.fee_recipient_diff r.fee_recipient_diff)

pub is_outbid : (new best : Option ℤ) → higher new best ≡ true → skips best new ≢ true
is_outbid new best h k = ground (arith, higher-skips new best)
