-- ===== src/Txroot/Depth/Bounds.antt =====
-- `Depth` is the logarithm to the base 2, rounded up, but 1 for the size 1.
use Prim.Native.Nat.{bit_or}
use native.Mathlib.Nat.{div-le_self, div-mul-le_self, lt-div-mul-add}
use mev_boost.Common.{
  ℕ, zero, suc, ◌+◌, ◌-◌, ◌*◌, ◌/◌, ◌%◌, ◌^◌, ◌≤◌, ◌<◌, ◌≡◌, refl, Bool, true, false, not, nat_beq,
  nat_beq_iff, ◌||◌, ◌&&◌, ltb, sym, ap, ◌∙◌, ◌≢◌, arith, Bool-cases, inl, inr,
}
use mev_boost.Common.Powers.{pow_pos, div_pow_add, div_pow_lt, high_bits_iff, pow_reflect_lt}
use mev_boost.Txroot.Depth.{Search, narrow, last, depth, high_bits}

-- Whether the numbers below `limit` all pass the test.
passes : (ℕ → Bool) → ℕ → Bool
passes test zero = true
passes test (suc limit) = elim (passes test limit) [ true ↦ test limit | false ↦ false ]

passes-at : (test : ℕ → Bool) (limit n : ℕ) → n < limit → passes test limit ≡ true → test n ≡ true
unfolding passes
passes-at test zero n small all = absurd (omega arith)
passes-at test (suc limit) n small all = ground (arith, passes-at test limit n)

-- Where the lower bits of `out` are clear, `out |= bit` adds the bit.
or_adds : ℕ → ℕ → Bool
or_adds bit out =
    not (nat_beq (out % (bit + bit)) 0)
    || (nat_beq (bit_or out bit) (out + bit)
        && ltb (out + bit) 64
        && nat_beq ((out + bit) % bit) 0
        && nat_beq (out % bit) 0)

or_adds_table :
    (passes (or_adds 32) 64 ≡ true)
    × (passes (or_adds 16) 64 ≡ true)
    × (passes (or_adds 8) 64 ≡ true)
    × (passes (or_adds 4) 64 ≡ true)
    × (passes (or_adds 2) 64 ≡ true)
    × (passes (or_adds 1) 64 ≡ true)
unfolding passes or_adds
or_adds_table = (refl, refl, refl, refl, refl, refl)

-- Before the test of `width` / 2 bits: n is what `depth` started from.
record IsNarrowed (n width : ℕ) (s : Search) : Type 0 where
  shifted : s.v ≡ n / 2 ^ s.out
  small : s.v < 2 ^ width
  aligned : s.out % width ≡ 0
  in_byte : s.out < 64
  positive : 0 < n → 0 < s.v
  at_zero : n ≡ 0 → s.out ≡ 0

module _ (bit : ℕ) (table : passes (or_adds bit) 64 ≡ true) where
  or_bit :
      (out : ℕ)
      → out < 64
      → out % (bit + bit) ≡ 0
      → (bit_or out bit ≡ out + bit) × (out + bit < 64) × ((out + bit) % bit ≡ 0) × (out % bit ≡ 0)
  unfolding or_adds
  or_bit out h a = ground (arith, passes-at (or_adds bit) 64 out h table)

  is_high : (v : ℕ) → nat_beq (high_bits v bit) 0 ≡ false → high_bits v bit ≢ 0
  is_high v h = ground arith

  high_pos : (v : ℕ) → high_bits v bit ≢ 0 → 0 < v / 2 ^ bit
  high_pos v h = ground arith

  at_zero_lt : (n : ℕ) (s : Search) → n ≡ 0 → IsNarrowed n (bit + bit) s → s.v < 2 ^ bit
  at_zero_lt n s e h = omega (arith, h.shifted, div-le_self n (2 ^ s.out), pow_pos bit)

  narrow-IsNarrowed :
      (n : ℕ) (s : Search) → IsNarrowed n (bit + bit) s → IsNarrowed n bit (narrow bit s)
  unfolding narrow
  narrow-IsNarrowed n s h = elim (Bool-cases (nat_beq (high_bits s.v bit) 0)) [
    | inl low ↦
        rw (low, narrow)
          (record {
            shifted = h.shifted;
            small = (high_bits_iff s.v bit).0 ((nat_beq_iff _ _).0 low);
            aligned = (or_bit s.out h.in_byte h.aligned).3;
            in_byte = h.in_byte;
            positive = h.positive;
            at_zero = h.at_zero;
          })
    | inr high ↦
        rw (high, narrow)
          (rw (or_bit s.out h.in_byte h.aligned).0 (record {
            shifted = ap (λ (v : ℕ). v / 2 ^ bit) h.shifted ∙ sym (div_pow_add n s.out bit);
            small = div_pow_lt s.v bit bit h.small;
            aligned = (or_bit s.out h.in_byte h.aligned).2;
            in_byte = (or_bit s.out h.in_byte h.aligned).1;
            positive = λ pos. high_pos s.v (is_high s.v high);
            at_zero =
                λ e. absurd (is_high s.v high ((high_bits_iff s.v bit).1 (at_zero_lt n s e h)));
          }))
  ]

start-IsNarrowed : (n : ℕ) → n < 2 ^ 64 → IsNarrowed n 64 (record { v = n; out = 0 })
start-IsNarrowed n h = record {
  shifted = omega arith;
  small = h;
  aligned = omega arith;
  in_byte = omega arith;
  positive = λ p. p;
  at_zero = λ e. refl;
}

-- The last test does to `out` what the others do.
out-last : (s : Search) → (last s).out ≡ (narrow 1 s).out
unfolding last narrow
out-last s = ground arith

-- What the search ends in.
abbrev searched : ℕ → Search
searched n =
    narrow 1 (narrow 2 (narrow 4 (narrow 8 (narrow 16 (narrow 32 (record { v = n; out = 0 }))))))

searched-IsNarrowed : (n : ℕ) → n < 2 ^ 64 → IsNarrowed n 1 (searched n)
searched-IsNarrowed n h =
    let (t32, t16, t8, t4, t2, t1) = or_adds_table in
    narrow-IsNarrowed 1 t1 n _ (
      narrow-IsNarrowed 2 t2 n _ (
        narrow-IsNarrowed 4 t4 n _ (
          narrow-IsNarrowed 8 t8 n _
            (narrow-IsNarrowed 16 t16 n _ (narrow-IsNarrowed 32 t32 n _ (start-IsNarrowed n h))))))

depth-eq : (v : ℕ) → v ≢ 0 → depth v ≡ (searched (v - 1)).out + 1
unfolding depth
depth-eq v h =
    let test : nat_beq v 0 ≡ false = ground arith in
    rw (test, depth) (ap (λ (o : ℕ). o + 1) (out-last _))

narrowed_bounds :
    (n : ℕ) (s : Search) → IsNarrowed n 1 s → 0 < n → (2 ^ s.out ≤ n) × (n < 2 ^ suc s.out)
narrowed_bounds n s h pos =
    let one : n / 2 ^ s.out ≡ 1 = sym h.shifted ∙ omega (arith, h.small, h.positive pos) in
    let low : n / 2 ^ s.out * 2 ^ s.out ≤ n = div-mul-le_self n (2 ^ s.out) in
    let high : n < n / 2 ^ s.out * 2 ^ s.out + 2 ^ s.out = lt-div-mul-add (pow_pos s.out) in
    (omega (arith, rw one at low), omega (arith, rw one at high))

pub depth_bounds :
    (v : ℕ) → 2 ≤ v → v < 2 ^ 64 → (2 ^ (depth v - 1) < v) × (v ≤ 2 ^ depth v) × (1 ≤ depth v)
depth_bounds v two h =
    let s = searched (v - 1) in
    let e : depth v ≡ suc s.out = depth-eq v (λ z. omega arith) ∙ omega arith in
    let pred : depth v - 1 ≡ s.out = omega (arith, e) in
    let b = narrowed_bounds (v - 1) s (searched-IsNarrowed (v - 1) (omega arith)) (omega arith) in
    (rw pred (omega (arith, b.0)), rw e (omega (arith, b.1)), omega (arith, e))

pub depth-zero : depth 0 ≡ 0
unfolding depth
depth-zero = refl

pub depth-one : depth 1 ≡ 1
unfolding depth narrow last
depth-one = refl

pub depth-le_64 : (v : ℕ) → v < 2 ^ 64 → depth v ≤ 64
depth-le_64 zero h = omega (arith, depth-zero)
depth-le_64 (suc n) h = omega (
  arith,
  depth-eq (suc n) (λ z. omega arith),
  (searched-IsNarrowed (suc n - 1) (omega arith)).in_byte,
)

-- For the sizes v from 2 to 2 ^ 64 - 1 `Depth` returns the logarithm of v to the base 2, rounded
-- up: v is greater than 2 ^ (Depth v - 1) and at most 2 ^ Depth v. The result is at most 64. For
-- the size 0 it returns 0, and for the size 1 it returns 1.
pub depth_log2 :
    (v : ℕ)
    → 2 ≤ v
    → v < 2 ^ 64
    → (2 ^ (depth v - 1) < v) × (v ≤ 2 ^ depth v) × (depth v ≤ 64) × (depth 0 ≡ 0) × (depth 1 ≡ 1)
depth_log2 v two h =
    let b = depth_bounds v two h in (b.0, b.1, depth-le_64 v h, depth-zero, depth-one)

pub depth_covers : (v : ℕ) → v < 2 ^ 64 → v ≤ 2 ^ depth v
depth_covers zero h = omega arith
depth_covers (suc zero) h = rw depth-one (omega arith)
depth_covers (suc (suc n)) h = (depth_bounds (suc (suc n)) (omega arith) h).1

pub depth_positive : (v : ℕ) → depth v ≢ 0 → 0 < v
depth_positive zero h = absurd (h depth-zero)
depth_positive (suc n) h = omega arith

pub depth_mono : (v w : ℕ) → v ≤ w → w < 2 ^ 64 → depth v ≤ depth w
depth_mono zero w le h = omega (arith, depth-zero)
depth_mono (suc zero) w le h =
    let pos : depth w ≢ 0 = λ e. absurd (omega (arith, e, depth-eq w (λ z. omega arith))) in
    omega (arith, depth-one, pos)
depth_mono (suc (suc n)) w le h =
    let a = depth_bounds (suc (suc n)) (omega arith) (omega arith) in
    let b = depth_covers w h in
    omega (arith, a.2, pow_reflect_lt (depth (suc (suc n)) - 1) (depth w) (omega (arith, a.0, b)))

-- The only height of a complete tree with room for v leaves and no level to spare.
pub depth_unique :
    (v t : ℕ) → 2 ≤ v → v < 2 ^ 64 → v ≤ 2 ^ t → (0 < t → 2 ^ (t - 1) < v) → depth v ≡ t
depth_unique v zero two h fits tight = absurd (omega arith)
depth_unique v (suc t) two h fits tight =
    let (low, high, pos) = depth_bounds v two h in
    omega (
      arith,
      pos,
      pow_reflect_lt (depth v - 1) (suc t) (omega (arith, low)),
      pow_reflect_lt (suc t - 1) (depth v) (omega (arith, high, tight (omega arith))),
    )
