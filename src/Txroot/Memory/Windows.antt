-- ===== src/Txroot/Memory/Windows.antt =====
-- Windows of lists, and lists by their last elements.
use mev_boost.Common.{
  ℕ, zero, suc, ◌+◌, ◌-◌, ◌≤◌, ◌≡◌, refl, sym, ap, ◌∙◌, List, [], ◌∷◌, ◌++◌, map, false, nat_beq,
  length, set, take, drop, arith, All, length-append, drop-drop,
}
use mev_boost.Types.{Bytes}
use mev_boost.Txroot.Result.{ok, index}
use mev_boost.Txroot.Root.{slice}
use mev_boost.Txroot.Memory.{Heap, Slice, contents, slice_at}

take-take_of_le : (n l : ℕ) (xs : Bytes) → n ≤ l → take n (take l xs) ≡ take n xs
take-take_of_le zero l xs le = refl
take-take_of_le (suc n) zero xs le = absurd (omega arith)
take-take_of_le (suc n) (suc l) [] le = refl
take-take_of_le (suc n) (suc l) (x ∷ xs) le =
    ap (λ ys. x ∷ ys) (take-take_of_le n l xs (omega arith))

window-take :
    (i n l : ℕ) (xs : Bytes) → i + n ≤ l → take n (drop i (take l xs)) ≡ take n (drop i xs)
window-take zero n l xs le = take-take_of_le n l xs (omega arith)
window-take (suc i) n zero xs le = absurd (omega arith)
window-take (suc i) n (suc l) [] le = refl
window-take (suc i) n (suc l) (x ∷ xs) le = window-take i n l xs (omega arith)

pub contents-slice_at :
    (h : Heap) (s : Slice) (i j : ℕ)
    → i ≤ j
    → j ≤ s.len
    → contents h (slice_at s i j) ≡ slice (contents h s) i j
contents-slice_at h s i j le within =
    ap (take (j - i)) (sym (drop-drop i s.offset (s.offset + i) (h.arrays s.array) refl))
    ∙ sym (window-take i (j - i) s.len (drop s.offset (h.arrays s.array)) (omega arith))

pub map-append_one :
    {A B : Type 0} (f : A → B) (xs : List A) (x : A) → map f (xs ++ x ∷ []) ≡ map f xs ++ f x ∷ []
map-append_one f [] x = refl
map-append_one f (y ∷ xs) x = ap (λ ys. f y ∷ ys) (map-append_one f xs x)

pub All-append_one :
    {A : Type 0} (P : A → Type 0) (xs : List A) (x : A) → All P xs → P x → All P (xs ++ x ∷ [])
All-append_one P [] x all one = (one, tt)
All-append_one P (y ∷ xs) x all one = (all.0, All-append_one P xs x all.1 one)

pub All-init : {A : Type 0} (P : A → Type 0) (xs : List A) (x : A) → All P (xs ++ x ∷ []) → All P xs
All-init P [] x all = tt
All-init P (y ∷ xs) x all = (all.0, All-init P xs x all.1)

-- The last element of a list, and putting another one there.
pub index-last : {A : Type 0} (xs : List A) (x : A) → index (xs ++ x ∷ []) (length xs) ≡ ok x
index-last [] x = refl
index-last (y ∷ xs) x = index-last xs x

pub set-last :
    {A : Type 0} (xs : List A) (x y : A) → set (xs ++ x ∷ []) (length xs) y ≡ xs ++ y ∷ []
set-last [] x y = refl
set-last (z ∷ xs) x y = ap (λ ys. z ∷ ys) (set-last xs x y)

pub count-last : {A : Type 0} (xs : List A) (x : A) → length (xs ++ x ∷ []) - 1 ≡ length xs
count-last xs x = omega (arith, length-append xs (x ∷ []))

pub some-last : {A : Type 0} (xs : List A) (x : A) → nat_beq (length (xs ++ x ∷ [])) 0 ≡ false
some-last xs x = ground (arith, length-append xs (x ∷ []))

pub All-last : {A : Type 0} (P : A → Type 0) (xs : List A) (x : A) → All P (xs ++ x ∷ []) → P x
All-last P [] x all = all.0
All-last P (y ∷ xs) x all = All-last P xs x all.1
