-- ===== src/Store/References/Values.antt =====
-- The values of a map, changed by a function: the operations of a map do not mind.
use mev_boost.Common.{
  ◌≡◌, refl, ap, ◌∙◌, List, [], ◌∷◌, Bool, Eq, ◌==◌, Bool-cases, inl, inr, Option-cases,
}
use mev_boost.Common.Map.{GoMap, lookup, insert, delete, keys}
use mev_boost.Store.{cleanup_entry, cleanup_loop}
use mev_boost.Store.Abstract.{map_option}

module _ {K V W : Type 0} ⦃e : Eq K⦄ (f : V → W) where
  abbrev pub map_values : GoMap K V → GoMap K W
  map_values [] = []
  map_values ((k, v) ∷ m) = (k, f v) ∷ map_values m

  pub lookup-map_values :
      (k : K) (m : GoMap K V) → lookup k (map_values m) ≡ map_option f (lookup k m)
  unfolding lookup
  lookup-map_values k [] = refl
  lookup-map_values k ((j, v) ∷ m) = elim (Bool-cases (j == k)) [
    | inl same ↦ rw same refl
    | inr other ↦ rw other (lookup-map_values k m)
  ]

  pub insert-map_values :
      (k : K) (v : V) (m : GoMap K V) → insert k (f v) (map_values m) ≡ map_values (insert k v m)
  unfolding insert
  insert-map_values k v [] = refl
  insert-map_values k v ((j, u) ∷ m) = elim (Bool-cases (j == k)) [
    | inl same ↦ rw same refl
    | inr other ↦ rw other (ap (λ r. (j, f u) ∷ r) (insert-map_values k v m))
  ]

  delete-map_values : (k : K) (m : GoMap K V) → delete k (map_values m) ≡ map_values (delete k m)
  unfolding delete
  delete-map_values k [] = refl
  delete-map_values k ((j, u) ∷ m) = elim (Bool-cases (j == k)) [
    | inl same ↦ rw same (delete-map_values k m)
    | inr other ↦ rw other (ap (λ r. (j, f u) ∷ r) (delete-map_values k m))
  ]

  pub keys-map_values : (m : GoMap K V) → keys (map_values m) ≡ keys m
  unfolding keys
  keys-map_values [] = refl
  keys-map_values ((j, u) ∷ m) = ap (λ r. j ∷ r) (keys-map_values m)

  -- Here a test of a value is one of the changed value.
  module _ (too_old : W → Bool) where
    cleanup_entry-map_values :
        (k : K) (m : GoMap K V)
        → cleanup_entry too_old k (map_values m)
          ≡ map_values (cleanup_entry (λ v. too_old (f v)) k m)
    unfolding cleanup_entry
    cleanup_entry-map_values k m = elim (Option-cases (lookup k m)) [
      | inl absent ↦ rw (lookup-map_values k m, cleanup_entry) (rw (absent, cleanup_entry) refl)
      | inr (c, found) ↦
          rw (lookup-map_values k m, cleanup_entry)
            (rw (found, cleanup_entry)
              (elim (Bool-cases (too_old (f c))) [
                | inl old ↦ rw old (delete-map_values k m)
                | inr young ↦ rw young refl
              ]))
    ]

    pub cleanup_loop-map_values :
        (ks : List K) (m : GoMap K V)
        → cleanup_loop too_old ks (map_values m)
          ≡ map_values (cleanup_loop (λ v. too_old (f v)) ks m)
    unfolding cleanup_loop
    cleanup_loop-map_values [] m = refl
    cleanup_loop-map_values (k ∷ ks) m =
        ap (cleanup_loop too_old ks) (cleanup_entry-map_values k m)
        ∙ cleanup_loop-map_values ks (cleanup_entry (λ v. too_old (f v)) k m)
