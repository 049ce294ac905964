-- ===== src/Common/Map.antt =====
-- Go's maps as association lists. No statement depends on the order of the entries, since Go
-- iterates over a map in any order.
use mathlib.Core.Path.{◌≡◌, refl}
use mathlib.Core.Bool.{Bool, false, ◌||◌}
use mathlib.Core.Option.{Option, none, some}
use mathlib.Core.List.{List, [], ◌∷◌}
use native.Mathlib.Omega.{arith}
use mev_boost.Common.Tests.{Eq, ◌==◌, if◌then◌else◌, beq_refl}

abbrev pub GoMap {ℓ κ} : Type ℓ → Type κ → Type (ℓ ⊔ κ)
GoMap K V = List (K × V)

unfoldable pub contains {ℓ} : {K : Type ℓ} ⦃e : Eq K⦄ → K → List K → Bool
contains k [] = false
contains k (j ∷ js) = j == k || contains k js

module _ {ℓ κ} {K : Type ℓ} {V : Type κ} ⦃e : Eq K⦄ where
  -- v, ok := m[k]
  unfoldable pub lookup : K → GoMap K V → Option V
  lookup k [] = none
  lookup k ((j, v) ∷ m) = if j == k then some v else lookup k m

  -- m[k] = v
  unfoldable pub insert : K → V → GoMap K V → GoMap K V
  insert k v [] = (k, v) ∷ []
  insert k v (entry ∷ m) = if entry.0 == k then (k, v) ∷ m else entry ∷ insert k v m

  -- delete(m, k)
  unfoldable pub delete : K → GoMap K V → GoMap K V
  delete k [] = []
  delete k ((j, v) ∷ m) = let rest = delete k m in if j == k then rest else (j, v) ∷ rest

  -- The keys that `range m` visits.
  unfoldable pub keys : GoMap K V → List K
  keys [] = []
  keys ((j, v) ∷ m) = j ∷ keys m

  pub lookup-insert :
      (written read : K) (new : V) (entries : GoMap K V)
      → lookup read (insert written new entries)
        ≡ (if written == read then some new else lookup read entries)
  unfolding lookup insert
  lookup-insert written read new [] = refl
  lookup-insert written read new ((key, value) ∷ rest) = ground (
    arith,
    e.beq_iff key written,
    e.beq_iff key read,
    e.beq_iff written read,
    lookup-insert written read new rest,
  )

  pub lookup-insert_self : (k : K) (v : V) (m : GoMap K V) → lookup k (insert k v m) ≡ some v
  lookup-insert_self k v m = simp (lookup-insert, beq_refl)

  pub lookup-delete :
      (k j : K) (m : GoMap K V) → lookup j (delete k m) ≡ (if k == j then none else lookup j m)
  unfolding lookup delete
  lookup-delete k j [] = ground arith
  lookup-delete k j ((i, w) ∷ m) =
      ground (arith, e.beq_iff k j, e.beq_iff i k, e.beq_iff i j, lookup-delete k j m)

  pub lookup-of_not_key : (k : K) (m : GoMap K V) → contains k (keys m) ≡ false → lookup k m ≡ none
  unfolding lookup keys contains
  lookup-of_not_key k [] h = refl
  lookup-of_not_key k ((j, v) ∷ m) h = ground (arith, lookup-of_not_key k m)

  -- The last value that is written under a key counts.
  pub insert-insert : (k : K) (v w : V) (m : GoMap K V) → insert k w (insert k v m) ≡ insert k w m
  unfolding insert
  insert-insert k v w [] = ground (arith, beq_refl k)
  insert-insert k v w ((j, u) ∷ m) = ground (arith, beq_refl k, insert-insert k v w m)
