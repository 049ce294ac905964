-- ===== src/Store/References/Owners.antt =====
-- Every container of a store has its own map: no two of them share one, and a map that is made later
-- is none of theirs.
use mathlib.Core.Path.{subst}
use mev_boost.Common.{
  ap, ◌∙◌, ℕ, suc, ◌<◌, ◌≡◌, ◌≢◌, sym, some, List, [], ◌∷◌, Bool, Eq, ◌==◌, Bool-cases,
  Option-cases, inl, inr, All, arith, String, string_eq,
}
use mev_boost.Common.Map.{GoMap, lookup, insert, delete}
use mev_boost.Store.{cleanup_entry, cleanup_loop}
use mev_boost.Store.References.{ResponsesRef, RefStore}

-- What holds of every entry holds after an insertion of such an entry, and after a removal.
module _ {K V : Type 0} ⦃e : Eq K⦄ (P : K × V → Type 0) where
  pub All-insert : (k : K) (v : V) (m : GoMap K V) → P (k, v) → All P m → All P (insert k v m)
  unfolding insert
  All-insert k v [] p h = (p, h)
  All-insert k v ((j, u) ∷ m) p h = elim (Bool-cases (j == k)) [
    | inl same ↦ rw same (p, h.1)
    | inr other ↦ rw other (h.0, All-insert k v m p h.1)
  ]

  pub All-delete : (k : K) (m : GoMap K V) → All P m → All P (delete k m)
  unfolding delete
  All-delete k [] h = tt
  All-delete k ((j, u) ∷ m) h = elim (Bool-cases (j == k)) [
    | inl same ↦ rw same (All-delete k m h.1)
    | inr other ↦ rw other (h.0, All-delete k m h.1)
  ]

-- What deletions keep, a cleanup keeps.
module _ {K V : Type 0} ⦃e : Eq K⦄ (too_old : V → Bool) (Q : GoMap K V → Type 0)
    (kept : (k : K) (m : GoMap K V) → Q m → Q (delete k m)) where
  cleanup_entry-keeps : (k : K) (m : GoMap K V) → Q m → Q (cleanup_entry too_old k m)
  unfolding cleanup_entry
  cleanup_entry-keeps k m h = elim (Option-cases (lookup k m)) [
    | inl absent ↦ rw (absent, cleanup_entry) h
    | inr (c, found) ↦ elim (Bool-cases (too_old c)) [
      | inl old ↦ rw (found, cleanup_entry) (rw old (kept k m h))
      | inr young ↦ rw (found, cleanup_entry) (rw young h)
    ]
  ]

  pub cleanup_loop-keeps : (ks : List K) (m : GoMap K V) → Q m → Q (cleanup_loop too_old ks m)
  unfolding cleanup_loop
  cleanup_loop-keeps [] m h = h
  cleanup_loop-keeps (k ∷ ks) m h =
      cleanup_loop-keeps ks (cleanup_entry too_old k m) (cleanup_entry-keeps k m h)

module _ {K V : Type 0} ⦃e : Eq K⦄ (P : K × V → Type 0) where
  pub lookup-All : (k : K) (v : V) (m : GoMap K V) → lookup k m ≡ some v → All P m → P (k, v)
  unfolding lookup
  lookup-All k v [] found h = cc
  lookup-All k v ((j, u) ∷ m) found h = elim (Bool-cases (j == k)) [
    | inl same ↦
        let key = (e.beq_iff j k).0 same in
        let it : u ≡ v = cc (rw same at found) in
        subst P (ap (λ a. (a, u)) key ∙ ap (λ b. (k, b)) it) h.0
    | inr other ↦ lookup-All k v m (rw other at found) h.1
  ]

module _ {K : Type 0} ⦃e : Eq K⦄ where
  -- No entry has the map r.
  abbrev pub Lacks : ℕ → GoMap K ResponsesRef → Type 0
  Lacks r = All (λ entry. entry.1.payload ≢ r)

  -- No two entries have one map.
  abbrev pub Apart : GoMap K ResponsesRef → Type 0
  Apart [] = Unit
  Apart (entry ∷ m) = Lacks entry.1.payload m × Apart m

  pub Apart-insert :
      (k : K) (c : ResponsesRef) (m : GoMap K ResponsesRef)
      → Lacks c.payload m
      → Apart m
      → Apart (insert k c m)
  unfolding insert
  Apart-insert k c [] lacks h = (tt, tt)
  Apart-insert k c ((j, u) ∷ m) lacks h = elim (Bool-cases (j == k)) [
    | inl same ↦ rw same (lacks.1, h.1)
    | inr other ↦ rw other (
      All-insert (λ entry. entry.1.payload ≢ u.payload) k c m (λ q. lacks.0 (sym q)) h.0,
      Apart-insert k c m lacks.1 h.1,
    )
  ]

  pub Apart-delete : (k : K) (m : GoMap K ResponsesRef) → Apart m → Apart (delete k m)
  unfolding delete
  Apart-delete k [] h = tt
  Apart-delete k ((j, u) ∷ m) h = elim (Bool-cases (j == k)) [
    | inl same ↦ rw same (Apart-delete k m h.1)
    | inr other ↦
        rw other (All-delete (λ entry. entry.1.payload ≢ u.payload) k m h.0, Apart-delete k m h.1)
  ]

pub record IsOwned (s : RefStore) : Type 0 where
  pub apart : Apart s.forkchoices
  pub below : All (λ (entry : String × ResponsesRef). entry.1.payload < s.made) s.forkchoices

pub below-Lacks :
    (n : ℕ) (m : GoMap String ResponsesRef)
    → All (λ (entry : String × ResponsesRef). entry.1.payload < n) m
    → Lacks n m
below-Lacks n [] h = tt
below-Lacks n (entry ∷ m) h = (λ same. omega (arith, same, h.0), below-Lacks n m h.1)

pub below-suc :
    (n : ℕ) (m : GoMap String ResponsesRef)
    → All (λ (entry : String × ResponsesRef). entry.1.payload < n) m
    → All (λ (entry : String × ResponsesRef). entry.1.payload < suc n) m
below-suc n [] h = tt
below-suc n (entry ∷ m) h = (omega (arith, h.0), below-suc n m h.1)
