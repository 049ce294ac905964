-- ===== src/Store/Mutex/Counts.antt =====
-- Counting what the goroutines have of a sync.RWMutex.
use mev_boost.Common.{
  ℕ, zero, suc, ◌+◌, ◌≤◌, ◌≡◌, refl, ap, ◌⊎◌, inl, inr, List, [], ◌∷◌, ◌++◌, Bool, true, false,
  if◌then◌else◌, arith, nat_eq,
}
use mev_boost.Store.Mutex.{Hold, free, waiting, writing, reading}

abbrev pub is_announced : Hold → ℕ
is_announced free = 0
is_announced waiting = 1
is_announced writing = 1
is_announced reading = 0

abbrev pub is_writing : Hold → ℕ
is_writing free = 0
is_writing waiting = 0
is_writing writing = 1
is_writing reading = 0

abbrev pub is_reading : Hold → ℕ
is_reading free = 0
is_reading waiting = 0
is_reading writing = 0
is_reading reading = 1

module _ {T : Type 0} where
  abbrev pub total : (T → ℕ) → List T → ℕ
  total count [] = 0
  total count (t ∷ ts) = count t + total count ts

  pub total-middle :
      (count : T → ℕ) (before : List T) (t : T) (after : List T)
      → total count (before ++ t ∷ after) ≡ count t + total count (before ++ after)
  total-middle count [] t after = omega arith
  total-middle count (u ∷ before) t after = omega (arith, total-middle count before t after)

pub writing_le_announced : (h : Hold) → is_writing h ≤ is_announced h
writing_le_announced free = omega arith
writing_le_announced waiting = omega arith
writing_le_announced writing = omega arith
writing_le_announced reading = omega arith

pub flag_le : (b : Bool) → (if b then 1 else 0) ≤ 1
flag_le true = omega arith
flag_le false = omega arith

pub zero_or_more : (n : ℕ) → (n ≡ 0) ⊎ (1 ≤ n)
zero_or_more zero = inl refl
zero_or_more (suc n) = inr (omega arith)

-- A goroutine that counts.
pub total_found :
    {T : Type 0} (count : T → ℕ) (ts : List T)
    → 1 ≤ total count ts
    → (before : List T) × (t : T) × (after : List T) × (ts ≡ before ++ t ∷ after) × (1 ≤ count t)
total_found count [] h = absurd (omega arith)
total_found count (t ∷ ts) h = elim (zero_or_more (count t)) [
  | inl none ↦
      let (before, u, after, e, counts) = total_found count ts (omega (arith, none)) in
      (t ∷ before, u, after, ap (λ r. t ∷ r) e, counts)
  | inr some ↦ ([], t, ts, refl, some)
]

pub is_writing-writing : (h : Hold) → 1 ≤ is_writing h → h ≡ writing
is_writing-writing free h = absurd (omega arith)
is_writing-writing waiting h = absurd (omega arith)
is_writing-writing writing h = refl
is_writing-writing reading h = absurd (omega arith)

pub Hold-cases : (h : Hold) → (h ≡ free) ⊎ (h ≡ waiting) ⊎ (1 ≤ is_writing h) ⊎ (1 ≤ is_reading h)
Hold-cases free = inl refl
Hold-cases waiting = inr (inl refl)
Hold-cases writing = inr (inr (inl (omega arith)))
Hold-cases reading = inr (inr (inr (omega arith)))
