-- ===== src/Store/Locks/Sweeps.antt =====
-- The loops of `Cleanup`, one turn more.
use mev_boost.Common.{ℕ, ◌≡◌, refl, ap, List, [], ◌∷◌, ◌++◌, map, Eq}
use mev_boost.Common.Map.{GoMap}
use mev_boost.Store.{visit, sweep}

module _ {K : Type 0} where
  pub visited :
      (done : List (K × ℕ)) (v : K × ℕ) (left : List K)
      → map (λ w. w.0) done ++ v.0 ∷ left ≡ map (λ w. w.0) (done ++ v ∷ []) ++ left
  visited [] v left = refl
  visited (w ∷ done) v left = ap (λ r. w.0 ∷ r) (visited done v left)

module _ {K V : Type 0} ⦃e : Eq K⦄ (added_at : V → ℕ) where
  pub sweep-visit :
      (done : List (K × ℕ)) (v : K × ℕ) (m : GoMap K V)
      → sweep added_at (done ++ v ∷ []) m ≡ visit added_at v (sweep added_at done m)
  unfolding sweep
  sweep-visit [] v m = refl
  sweep-visit (w ∷ done) v m = sweep-visit done v (visit added_at w m)
