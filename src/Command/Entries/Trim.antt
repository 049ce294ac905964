-- ===== src/Command/Entries/Trim.antt =====
-- What `Trim` cuts off.
use Prim.Native.Char.{Char, code}
use Prim.Native.String.{◌++◌}
use Prim.Native.String.append.{nil, cons}
use mev_boost.Common.{
  ℕ, zero, suc, ◌≡◌, refl, sym, ap, ◌∙◌, inl, inr, String, Bool, true, false, nat_beq_iff,
  Bool-cases,
}
use text.Mathlib.TextEquality.{Char-path}
use mev_boost.Command.Entries.{is_space, cut_space, trim_left, trim_right, trim}

abbrev pub spaces : ℕ → String
spaces zero = ""
spaces (suc n) = String.◌∷◌ " " (spaces n)

abbrev pub starts_with_space : String → Bool
starts_with_space String.[] = false
starts_with_space (String.◌∷◌ c s) = is_space c

abbrev pub ends_with_space : String → Bool
ends_with_space String.[] = false
ends_with_space (String.◌∷◌ c String.[]) = is_space c
ends_with_space (String.◌∷◌ c (String.◌∷◌ d s)) = ends_with_space (String.◌∷◌ d s)

pub record IsTrimmed (s : String) : Type 0 where
  pub first : starts_with_space s ≡ false
  pub last : ends_with_space s ≡ false

trim_left-spaces : (n : ℕ) (s : String) → trim_left (spaces n ++ s) ≡ trim_left s
unfolding trim_left
trim_left-spaces zero s = ap (λ t. trim_left t) (nil s)
trim_left-spaces (suc n) s = rw (cons " " (spaces n) s) (trim_left-spaces n s)

trim_left-nil : (m : ℕ) → trim_left (spaces m) ≡ ""
unfolding trim_left
trim_left-nil zero = refl
trim_left-nil (suc m) = trim_left-nil m

trim_right-nil : (m : ℕ) → trim_right (spaces m) ≡ ""
unfolding trim_right
trim_right-nil zero = refl
trim_right-nil (suc m) = rw (trim_right-nil m) refl

trim_right-spaces :
    (s : String) (m : ℕ) → ends_with_space s ≡ false → trim_right (s ++ spaces m) ≡ s
unfolding trim_right
trim_right-spaces String.[] m h = rw (nil (spaces m)) (trim_right-nil m)
trim_right-spaces (String.◌∷◌ c String.[]) m h =
    rw (cons c "" (spaces m), nil (spaces m)) (rw (trim_right-nil m) (rw h refl))
trim_right-spaces (String.◌∷◌ c (String.◌∷◌ d s)) m h =
    rw (cons c (String.◌∷◌ d s) (spaces m)) (rw (trim_right-spaces (String.◌∷◌ d s) m h) refl)

-- `Trim` takes the spaces off around a text that neither starts nor ends with one.
pub trim-spaces : (n m : ℕ) (s : String) → IsTrimmed s → trim (spaces n ++ (s ++ spaces m)) ≡ s
unfolding trim trim_left
trim-spaces n m String.[] h =
    rw (trim_left-spaces n ("" ++ spaces m), nil (spaces m))
      (rw (trim_left-nil m) (trim_right-nil 0))
trim-spaces n m (String.◌∷◌ c s) h =
    rw (trim_left-spaces n (String.◌∷◌ c s ++ spaces m), cons c s (spaces m))
      (rw h.first
        (ap trim_right (sym (cons c s (spaces m))) ∙ trim_right-spaces (String.◌∷◌ c s) m h.last))

space_char : (c : Char) → is_space c ≡ true → c ≡ " "
space_char c h = Char-path c " " ((nat_beq_iff (code c) 32).0 h)

trim_left-splits :
    (s : String)
    → (n : ℕ) × (s ≡ spaces n ++ trim_left s) × (starts_with_space (trim_left s) ≡ false)
unfolding trim_left
trim_left-splits String.[] = (0, sym (nil ""), refl)
trim_left-splits (String.◌∷◌ c s) = elim (Bool-cases (is_space c)) [
  | inl space ↦
      let (n, whole, start) = trim_left-splits s in
      (
        suc n,
        rw (space, trim_left)
            (ap (λ d. String.◌∷◌ d s) (space_char c space)
              ∙ ap (λ t. String.◌∷◌ " " t) whole
              ∙ sym (cons " " (spaces n) (trim_left s))),
        rw (space, trim_left) start,
      )
  | inr other ↦ (0, rw (other, trim_left) (sym (nil _)), rw (other, trim_left) other)
]

cut_space-splits :
    (c : Char) (t : String) (m : ℕ)
    → ends_with_space t ≡ false
    → (k : ℕ) × (String.◌∷◌ c (t ++ spaces m) ≡ cut_space c t ++ spaces k)
      × (ends_with_space (cut_space c t) ≡ false)
cut_space-splits c String.[] m h = elim (Bool-cases (is_space c)) [
  | inl space ↦ (
    suc m,
    rw space (
        rw (nil (spaces m), nil (spaces (suc m)))
          (ap (λ d. String.◌∷◌ d (spaces m)) (space_char c space))),
    rw space refl,
  )
  | inr other ↦ (m, rw other (sym (cons c "" (spaces m))), rw other other)
]
cut_space-splits c (String.◌∷◌ d t) m h = (m, sym (cons c (String.◌∷◌ d t) (spaces m)), h)

trim_right-splits :
    (s : String)
    → (m : ℕ) × (s ≡ trim_right s ++ spaces m) × (ends_with_space (trim_right s) ≡ false)
unfolding trim_right
trim_right-splits String.[] = (0, sym (nil ""), refl)
trim_right-splits (String.◌∷◌ c s) =
    let (m, whole, end) = trim_right-splits s in
    let (k, cut, last) = cut_space-splits c (trim_right s) m end in
    (k, ap (λ t. String.◌∷◌ c t) whole ∙ cut, last)

cut_space-start :
    (c : Char) (t : String) → is_space c ≡ false → starts_with_space (cut_space c t) ≡ false
cut_space-start c String.[] h = rw h h
cut_space-start c (String.◌∷◌ d t) h = h

trim_right-start :
    (s : String) → starts_with_space s ≡ false → starts_with_space (trim_right s) ≡ false
unfolding trim_right
trim_right-start String.[] h = refl
trim_right-start (String.◌∷◌ c s) h = cut_space-start c (trim_right s) h

-- A text is what `Trim` leaves of it with spaces around that, and what it leaves neither starts nor
-- ends with one.
pub trim_lem :
    (s : String) → (n : ℕ) × (m : ℕ) × (s ≡ spaces n ++ (trim s ++ spaces m)) × IsTrimmed (trim s)
unfolding trim
trim_lem s =
    let (n, left, start) = trim_left-splits s in
    let (m, right, end) = trim_right-splits (trim_left s) in
    (
      n,
      m,
      left ∙ ap (λ t. spaces n ++ t) right,
      record { first = trim_right-start (trim_left s) start; last = end },
    )
