-- ===== src/Store/Mutex/Guarded.antt =====
-- A map under a sync.RWMutex: what the goroutines do to it in many moves, beside the same done at
-- once. `ahead t` is what the goroutine t has done to the map so far, and `Fit t a` what it knows of
-- the map a that it found when it locked.
use mev_boost.Common.{
  ◌≡◌, refl, sym, ap, ◌∙◌, ◌⊎◌, inl, inr, Option, List, [], ◌∷◌, ◌++◌, All, arith,
}
use mathlib.Core.Path.{subst}
use mev_boost.Store.Mutex.{RwMutex, Hold, free, writing, reading, unlocked, LockStep, stays}
use mev_boost.Store.Mutex.Exclusion.{
  unlocked-IsConsistent, writing_of, IsConsistent, LockStep-IsConsistent, IsConsistent-writing,
  IsConsistent-reading,
}
use mev_boost.Store.Mutex.Counts.{is_announced, is_reading, is_writing}

module _ {T : Type 0} (P : T → Type 0) where
  All-middle :
      (before : List T) (t : T) (after : List T)
      → All P (before ++ t ∷ after)
      → P t × All P (before ++ after)
  All-middle [] t after h = h
  All-middle (u ∷ before) t after h =
      let rest = All-middle before t after h.1 in (rest.0, (h.0, rest.1))

  All-insert :
      (before : List T) (t : T) (after : List T)
      → P t
      → All P (before ++ after)
      → All P (before ++ t ∷ after)
  All-insert [] t after p h = (p, h)
  All-insert (u ∷ before) t after p h = (h.0, All-insert before t after p h.1)

module _ {T M E : Type 0} (hold : T → Hold) (ahead : T → M → M) (Fit : T → M → Type 0)
    (After : Option E → M → M → Type 0) where
  -- Only a goroutine that writes has changed the map, and knows more of it.
  pub record GuardLaws : Type 0 where
    pub same : (t : T) (a : M) → is_writing (hold t) ≡ 0 → ahead t a ≡ a
    pub fits : (t : T) (a : M) → is_writing (hold t) ≡ 0 → Fit t a

  -- A move of a goroutine, as the map sees it: one of the mutex, or one under the mutex, to which a
  -- change of the map as a whole belongs.
  pub data Guarded (x : RwMutex) (m : M) (t : T) (e : Option E) : RwMutex → M → T → Type 0 where
    locks :
        {x' : RwMutex} {t' : T}
        → LockStep x (hold t) x' (hold t')
        → ((a : M) → ahead t' a ≡ ahead t a)
        → ((a : M) → Fit t a → Fit t' a)
        → ((a : M) → After e a a)
        → Guarded x m t e x' m t'
    acts :
        {m' : M} {t' : T}
        → (hold t ≡ writing) ⊎ (hold t ≡ reading)
        → hold t' ≡ hold t
        → ((a : M)
            → m ≡ ahead t a
            → Fit t a
            → (a' : M) × After e a a' × (m' ≡ ahead t' a') × Fit t' a')
        → Guarded x m t e x m' t'

  abbrev pub all_ahead : List T → M → M
  all_ahead [] a = a
  all_ahead (t ∷ ts) a = ahead t (all_ahead ts a)

  pub record Simulates (x : RwMutex) (m : M) (ts : List T) (a : M) : Type 0 where
    pub consistent : IsConsistent hold x ts
    pub state : m ≡ all_ahead ts a
    pub fits : All (λ t. Fit t a) ts

  module _ (laws : GuardLaws) where
    pub all_ahead_same : (ts : List T) (a : M) → writing_of hold ts ≡ 0 → all_ahead ts a ≡ a
    all_ahead_same [] a h = refl
    all_ahead_same (t ∷ ts) a h =
        ap (ahead t) (all_ahead_same ts a (omega arith)) ∙ laws.same t a (omega arith)

    all_fit : (ts : List T) (a : M) → writing_of hold ts ≡ 0 → All (λ t. Fit t a) ts
    all_fit [] a h = tt
    all_fit (t ∷ ts) a h = (laws.fits t a (omega arith), all_fit ts a (omega arith))

    pub all_ahead_alone :
        (before : List T) (t : T) (after : List T) (a : M)
        → writing_of hold (before ++ after) ≡ 0
        → all_ahead (before ++ t ∷ after) a ≡ ahead t a
    all_ahead_alone [] t after a h = ap (ahead t) (all_ahead_same after a h)
    all_ahead_alone (u ∷ before) t after a h =
        ap (ahead u) (all_ahead_alone before t after a (omega arith))
        ∙ laws.same u (ahead t a) (omega arith)

    all_ahead_replaced :
        (before : List T) (t t' : T) (after : List T) (a : M)
        → ((b : M) → ahead t' b ≡ ahead t b)
        → all_ahead (before ++ t ∷ after) a ≡ all_ahead (before ++ t' ∷ after) a
    all_ahead_replaced [] t t' after a h = sym (h (all_ahead after a))
    all_ahead_replaced (u ∷ before) t t' after a h =
        ap (ahead u) (all_ahead_replaced before t t' after a h)

    others_write_nothing :
        {x : RwMutex} (before : List T) (t : T) (after : List T)
        → IsConsistent hold x (before ++ t ∷ after)
        → (hold t ≡ writing) ⊎ (hold t ≡ reading)
        → writing_of hold (before ++ after) ≡ 0
    others_write_nothing before t after c (inl e) = (IsConsistent-writing hold before t after c e).0
    others_write_nothing before t after c (inr e) = IsConsistent-reading hold before t after c e

    -- Every move of a goroutine is followed by the map that changes at once.
    pub Guarded-Simulates :
        {x x' : RwMutex} {m m' : M} {e : Option E} (before : List T) (t t' : T) (after : List T)
        (a : M)
        → Guarded x m t e x' m' t'
        → Simulates x m (before ++ t ∷ after) a
        → (a' : M) × After e a a' × Simulates x' m' (before ++ t' ∷ after) a'
    Guarded-Simulates before t t' after a (locks step same fit quiet) s =
        let fits = All-middle (λ u. Fit u a) before t after s.fits in
        (
          a,
          quiet a,
          record {
            consistent = LockStep-IsConsistent hold before t t' after step s.consistent;
            state = s.state ∙ all_ahead_replaced before t t' after a same;
            fits = All-insert (λ u. Fit u a) before t' after (fit a fits.0) fits.1;
          },
        )
    Guarded-Simulates {x} before t t' after a (acts held stay change) s =
        let alone = others_write_nothing before t after s.consistent held in
        let fits = All-middle (λ u. Fit u a) before t after s.fits in
        let (a', after', state', fit') =
          change a (s.state ∙ all_ahead_alone before t after a alone) fits.0 in
        let step : LockStep x (hold t) x (hold t') =
          subst (λ h. LockStep x (hold t) x h) (sym stay) stays in
        (
          a',
          after',
          record {
            consistent = LockStep-IsConsistent hold before t t' after step s.consistent;
            state = state' ∙ sym (all_ahead_alone before t' after a' alone);
            fits =
                All-insert (λ u. Fit u a') before t' after fit'
                  (all_fit (before ++ after) a' alone);
          },
        )

    -- A goroutine that has nothing of the mutex yet.
    pub Simulates-new :
        {x : RwMutex} {m a : M} (t : T) (ts : List T)
        → hold t ≡ free
        → Simulates x m ts a
        → Simulates x m (t ∷ ts) a
    Simulates-new {a} t ts e s =
        let not_writing = ap is_writing e in
        record {
          consistent = record {
            announced = omega (arith, ap is_announced e, s.consistent.announced);
            readers = omega (arith, ap is_reading e, s.consistent.readers);
            apart = λ h. s.consistent.apart (omega (arith, not_writing));
          };
          state = s.state ∙ sym (laws.same t (all_ahead ts a) not_writing);
          fits = (laws.fits t a not_writing, s.fits);
        }

    pub unlocked-Simulates : (m : M) → Simulates unlocked m [] m
    unlocked-Simulates m = record {
      consistent = unlocked-IsConsistent hold;
      state = refl;
      fits = tt;
    }
