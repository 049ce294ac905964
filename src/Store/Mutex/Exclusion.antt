-- ===== src/Store/Mutex/Exclusion.antt =====
-- Mutual exclusion under a sync.RWMutex, by counting what the goroutines have of it.
use mev_boost.Common.{
  ℕ, zero, suc, ◌+◌, ◌*◌, ◌≤◌, ◌≡◌, refl, ap, ◌∙◌, ◌⊎◌, inl, inr, List, [], ◌∷◌, ◌++◌, Bool-cases,
  true, false, if◌then◌else◌, arith, nat_eq,
}
use mev_boost.Store.Mutex.{
  RwMutex, Hold, writing, reading, LockStep, stays, announces, enters, unlocks, r_locks, r_unlocks,
  r_lock, r_unlock, announce, no_readers, unlock, unlocked,
}
use mev_boost.Store.Mutex.Counts.{
  flag_le, is_announced, is_reading, is_writing, total, total-middle, writing_le_announced,
  zero_or_more,
}

one_or_none : (w r : ℕ) → w ≤ 1 → (1 ≤ w → r ≡ 0) → w * r ≡ 0
one_or_none zero r le h = omega arith
one_or_none (suc zero) r le h = omega (arith, h (omega arith))
one_or_none (suc (suc w)) r le h = absurd (omega arith)

-- A goroutine with the hold h beside others that announce a times, write w times and read r times.
record Agrees (a w r : ℕ) (x : RwMutex) (h : Hold) : Type 0 where
  announced : is_announced h + a ≡ (if x.announced then 1 else 0)
  readers : is_reading h + r ≡ x.readers
  apart : 1 ≤ is_writing h + w → x.readers ≡ 0

LockStep-Agrees :
    {a w r : ℕ} {x x' : RwMutex} {h h' : Hold}
    → w ≤ a
    → LockStep x h x' h'
    → Agrees a w r x h
    → Agrees a w r x' h'
unfolding r_lock r_unlock announce no_readers unlock
LockStep-Agrees le stays g = g
LockStep-Agrees le (announces e) g = record {
  announced = ground (arith, g.announced);
  readers = ground (arith, g.readers);
  apart = ground (arith, g.announced);
}
LockStep-Agrees le (enters e) g = record {
  announced = ground (arith, g.announced);
  readers = ground (arith, g.readers);
  apart = ground arith;
}
LockStep-Agrees le unlocks g = record {
  announced = ground (arith, g.announced);
  readers = ground (arith, g.readers);
  apart = ground (arith, g.apart);
}
LockStep-Agrees le (r_locks e) g = record {
  announced = ground (arith, g.announced);
  readers = ground (arith, g.readers);
  apart = ground (arith, g.announced);
}
LockStep-Agrees le r_unlocks g = record {
  announced = ground (arith, g.announced);
  readers = ground (arith, g.readers);
  apart = ground (arith, g.apart);
}

module _ {T : Type 0} (hold : T → Hold) where
  abbrev pub announced_of : List T → ℕ
  announced_of = total (λ t. is_announced (hold t))

  abbrev pub writing_of : List T → ℕ
  writing_of = total (λ t. is_writing (hold t))

  abbrev pub reading_of : List T → ℕ
  reading_of = total (λ t. is_reading (hold t))

  -- The mutex knows what the goroutines have of it, and none writes while another reads.
  pub record IsConsistent (x : RwMutex) (ts : List T) : Type 0 where
    pub announced : announced_of ts ≡ (if x.announced then 1 else 0)
    pub readers : reading_of ts ≡ x.readers
    pub apart : 1 ≤ writing_of ts → x.readers ≡ 0

  writing-announced : (ts : List T) → writing_of ts ≤ announced_of ts
  writing-announced [] = omega arith
  writing-announced (t ∷ ts) = omega (arith, writing-announced ts, writing_le_announced (hold t))

  pub LockStep-IsConsistent :
      {x x' : RwMutex} (before : List T) (t t' : T) (after : List T)
      → LockStep x (hold t) x' (hold t')
      → IsConsistent x (before ++ t ∷ after)
      → IsConsistent x' (before ++ t' ∷ after)
  LockStep-IsConsistent {x} {x'} before t t' after step c =
      let a = total-middle (λ u. is_announced (hold u)) before t after in
      let w = total-middle (λ u. is_writing (hold u)) before t after in
      let r = total-middle (λ u. is_reading (hold u)) before t after in
      let g : Agrees (announced_of (before ++ after)) (writing_of (before ++ after))
          (reading_of (before ++ after)) x (hold t) =
        record {
          announced = omega (arith, a, c.announced);
          readers = omega (arith, r, c.readers);
          apart = λ h. c.apart (omega (arith, w));
        } in
      let g' = LockStep-Agrees (writing-announced (before ++ after)) step g in
      record {
        announced = total-middle _ before t' after ∙ g'.announced;
        readers = total-middle _ before t' after ∙ g'.readers;
        apart =
            λ h. g'.apart (omega (arith, total-middle (λ u. is_writing (hold u)) before t' after));
      }

  -- While a goroutine writes, no other one writes or reads, and while one reads, none writes.
  pub IsConsistent-writing :
      {x : RwMutex} (before : List T) (t : T) (after : List T)
      → IsConsistent x (before ++ t ∷ after)
      → hold t ≡ writing
      → (writing_of (before ++ after) ≡ 0) × (reading_of (before ++ after) ≡ 0)
  IsConsistent-writing {x} before t after c e =
      let le = writing-announced (before ++ after) in
      let flag = flag_le x.announced in
      let write = ap is_writing e in
      let announce = ap is_announced e in
      let a = total-middle (λ u. is_announced (hold u)) before t after in
      let w = total-middle (λ u. is_writing (hold u)) before t after in
      let r = total-middle (λ u. is_reading (hold u)) before t after in
      let none_read = c.apart (omega (arith, w, write)) in
      (omega (arith, a, le, flag, announce, c.announced), omega (arith, r, none_read, c.readers))

  pub IsConsistent-reading :
      {x : RwMutex} (before : List T) (t : T) (after : List T)
      → IsConsistent x (before ++ t ∷ after)
      → hold t ≡ reading
      → writing_of (before ++ after) ≡ 0
  IsConsistent-reading before t after c e =
      let read = ap is_reading e in
      let r = total-middle (λ u. is_reading (hold u)) before t after in
      let w = total-middle (λ u. is_writing (hold u)) before t after in
      ground (arith, r, w, read, c.apart, c.readers)

  pub IsConsistent-exclusive :
      {x : RwMutex} {ts : List T}
      → IsConsistent x ts
      → (writing_of ts ≤ 1) × (writing_of ts * reading_of ts ≡ 0)
  IsConsistent-exclusive {x} {ts} c =
      let one : writing_of ts ≤ 1 =
        omega (arith, writing-announced ts, c.announced, flag_le x.announced) in
      (
        one,
        one_or_none (writing_of ts) (reading_of ts) one (λ h. omega (arith, c.readers, c.apart h)),
      )

  pub announced_or_none :
      {x : RwMutex} {ts : List T}
      → IsConsistent x ts
      → (x.announced ≡ false) ⊎ (1 ≤ announced_of ts)
  announced_or_none {x} c = elim (Bool-cases x.announced) [
    | inl e ↦ inr (ground (arith, c.announced))
    | inr e ↦ inl e
  ]

  pub readers_or_none :
      {x : RwMutex} {ts : List T} → IsConsistent x ts → (no_readers x ≡ true) ⊎ (1 ≤ reading_of ts)
  unfolding no_readers
  readers_or_none {x} c = elim (zero_or_more x.readers) [
    | inl e ↦ inl (ground arith)
    | inr h ↦ inr (omega (arith, c.readers))
  ]

  pub unlocked-IsConsistent : IsConsistent unlocked []
  unlocked-IsConsistent = record { announced = refl; readers = refl; apart = λ h. refl }
