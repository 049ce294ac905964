-- ===== src/Txroot/Memory/Append.antt =====
-- What `append` does to the slice that it extends, and to the others.
use native.Mathlib.Decide.{ℕ_discrete}
use mev_boost.Common.{
  ℕ, zero, suc, ◌+◌, ◌-◌, ◌≤◌, ◌<◌, ◌≡◌, ◌≢◌, refl, sym, ap, ◌∙◌, ◌⊎◌, inl, inr, [], ◌∷◌, ◌++◌, ltb,
  ltb→lt, length, set, take, drop, replicate, arith, Bool-cases, length-take, length-drop,
  length-append, length-set, length-replicate,
}
use mev_boost.Types.{Bytes}
use mev_boost.Txroot.Memory.{Heap, Slice, contents, write, append_byte}

-- The slice lies in its array.
pub record IsValid (h : Heap) (s : Slice) : Type 0 where
  pub within : s.len ≤ s.cap
  pub fits : s.offset + s.cap ≤ length (h.arrays s.array)
  pub known : s.array < h.next

pub length-contents : (h : Heap) (s : Slice) → IsValid h s → length (contents h s) ≡ s.len
length-contents h s v = omega (
  arith,
  v.within,
  v.fits,
  length-take s.len (drop s.offset (h.arrays s.array)),
  length-drop s.offset (h.arrays s.array),
)

-- A write right behind a window extends it, and one behind it leaves it.
take-set :
    (n : ℕ) (xs : Bytes) (v : ℕ) → n < length xs → take (suc n) (set xs n v) ≡ take n xs ++ v ∷ []
take-set n [] v lt = absurd (omega arith)
take-set zero (x ∷ xs) v lt = refl
take-set (suc n) (x ∷ xs) v lt = ap (λ ys. x ∷ ys) (take-set n xs v (omega arith))

take-set_behind : (n k : ℕ) (xs : Bytes) (v : ℕ) → n ≤ k → take n (set xs k v) ≡ take n xs
take-set_behind zero k xs v le = refl
take-set_behind (suc n) k [] v le = refl
take-set_behind (suc n) zero (x ∷ xs) v le = absurd (omega arith)
take-set_behind (suc n) (suc k) (x ∷ xs) v le =
    ap (λ ys. x ∷ ys) (take-set_behind n k xs v (omega arith))

drop-set : (o k : ℕ) (xs : Bytes) (v : ℕ) → drop o (set xs (o + k) v) ≡ set (drop o xs) k v
drop-set zero k xs v = let e : 0 + k ≡ k = omega arith in rw e refl
drop-set (suc o) k [] v = refl
drop-set (suc o) k (x ∷ xs) v =
    let e : suc o + k ≡ suc (o + k) = omega arith in rw e (drop-set o k xs v)

window-set_behind :
    (o n k : ℕ) (xs : Bytes) (v : ℕ) → o + n ≤ k → take n (drop o (set xs k v)) ≡ take n (drop o xs)
window-set_behind zero n k xs v le = take-set_behind n k xs v (omega arith)
window-set_behind (suc o) n k [] v le = refl
window-set_behind (suc o) n zero (x ∷ xs) v le = absurd (omega arith)
window-set_behind (suc o) n (suc k) (x ∷ xs) v le = window-set_behind o n k xs v (omega arith)

take-whole_and :
    (xs : Bytes) (v : ℕ) (rest : Bytes) → take (suc (length xs)) (xs ++ v ∷ rest) ≡ xs ++ v ∷ []
take-whole_and [] v rest = refl
take-whole_and (x ∷ xs) v rest = ap (λ ys. x ∷ ys) (take-whole_and xs v rest)

written_same : (a : ℕ) (bytes : Bytes) (h : Heap) → (write a bytes h).arrays a ≡ bytes
written_same a bytes h = ground arith

written_other :
    (a k : ℕ) (bytes : Bytes) (h : Heap) → k ≢ a → (write a bytes h).arrays k ≡ h.arrays k
written_other a k bytes h other = ground arith

-- The slice t is not behind the slice s in one array.
abbrev pub Apart : Heap → Slice → Slice → Type 0
Apart h s t = (t.array < h.next) × ((t.array ≢ s.array) ⊎ (t.offset + t.len ≤ s.offset + s.len))

module _ (grow : ℕ → ℕ) (roomy : (n : ℕ) → n ≤ grow n) where
  -- What `append` gives.
  pub record Appended (v : ℕ) (h : Heap) (s : Slice) (s' : Slice) (h' : Heap) : Type 0 where
    pub value : contents h' s' ≡ contents h s ++ v ∷ []
    pub valid : IsValid h' s'
    pub longer : s'.len ≡ suc s.len
    pub others : (t : Slice) → Apart h s t → (contents h' t ≡ contents h t) × Apart h' s' t

  in_place_others :
      (v : ℕ) (h : Heap) (s t : Slice)
      → Apart h s t
      → (contents (write s.array (set (h.arrays s.array) (s.offset + s.len) v) h) t ≡ contents h t)
        × Apart
            (write s.array (set (h.arrays s.array) (s.offset + s.len) v) h)
            (record s { len = suc s.len })
            t
  in_place_others v h s t apart =
      let arr = h.arrays s.array in
      let new = set arr (s.offset + s.len) v in
      let window = λ (bytes : Bytes). take t.len (drop t.offset bytes) in
      elim (ℕ_discrete t.array s.array) [
        | no other ↦ (ap window (written_other s.array t.array new h other), (apart.0, inl other))
        | yes same ↦ elim apart.1 [
          | inl other ↦ absurd (other same)
          | inr le ↦ (
            ap window (ap (write s.array new h).arrays same ∙ written_same s.array new h)
                ∙ window-set_behind t.offset t.len (s.offset + s.len) arr v le
                ∙ ap window (ap h.arrays (sym same)),
            (apart.0, inr (omega (arith, le))),
          )
        ]
      ]

  in_place :
      (v : ℕ) (h : Heap) (s : Slice)
      → IsValid h s
      → s.len < s.cap
      → Appended v h s
          (record s { len = suc s.len })
          (write s.array (set (h.arrays s.array) (s.offset + s.len) v) h)
  in_place v h s valid room =
      let arr = h.arrays s.array in
      let at_end : set arr (s.offset + s.len) v
          ≡ (write s.array (set arr (s.offset + s.len) v) h).arrays s.array =
        sym (written_same s.array (set arr (s.offset + s.len) v) h) in
      record {
        value = rw (← at_end) (
            ap (take (suc s.len)) (drop-set s.offset s.len arr v)
            ∙ take-set s.len (drop s.offset arr) v
                (omega (arith, valid.fits, valid.within, length-drop s.offset arr)));
        valid = record {
          within = omega arith;
          fits = rw (← at_end) (omega (arith, valid.fits, length-set arr (s.offset + s.len) v));
          known = valid.known;
        };
        longer = refl;
        others = λ t apart. in_place_others v h s t apart;
      }

  new_array :
      (v : ℕ) (h : Heap) (s : Slice)
      → IsValid h s
      → Appended v h s
          (record { array = h.next; offset = 0; len = suc s.len; cap = grow (suc s.len) })
          (record (write h.next
            (contents h s ++ v ∷ replicate (grow (suc s.len) - suc s.len) 0)
            h) { next = suc h.next })
  new_array v h s valid =
      let old = contents h s in
      let sized : length old ≡ s.len = length-contents h s valid in
      let spare : Bytes = replicate (grow (suc s.len) - suc s.len) 0 in
      let new : Bytes = old ++ v ∷ spare in
      let at_next : new ≡ (write h.next new h).arrays h.next = sym (written_same h.next new h) in
      record {
        value =
            rw (← at_next) (ap (λ n. take (suc n) new) (sym sized) ∙ take-whole_and old v spare);
        valid = record {
          within = roomy (suc s.len);
          fits = rw (← at_next) (
              omega (
                arith,
                sized,
                roomy (suc s.len),
                length-append old (v ∷ spare),
                length-replicate {A = ℕ} (grow (suc s.len) - suc s.len) 0,
              ));
          known = omega arith;
        };
        longer = refl;
        others = λ t apart.
            let fresh : t.array ≢ h.next = λ e. omega (arith, apart.0, e) in
            (
              ap (λ (bytes : Bytes). take t.len (drop t.offset bytes))
                  (written_other h.next t.array new h fresh),
              (omega (arith, apart.0), inl fresh),
            );
      }

  pub append_byte-Appended :
      (v : ℕ) (h : Heap) (s : Slice)
      → IsValid h s
      → Appended v h s (append_byte grow v s h).0 (append_byte grow v s h).1
  unfolding append_byte
  append_byte-Appended v h s valid = elim (Bool-cases (ltb s.len s.cap)) [
    | inl room ↦ rw (room, append_byte) (in_place v h s valid (ltb→lt s.len s.cap room))
    | inr full ↦ rw (full, append_byte) (new_array v h s valid)
  ]
