-- ===== src/Command/Entries/Split.antt =====
-- `Split` is the inverse of joining parts without commas.
use Prim.Native.Char.{Char, code}
use Prim.Native.String.{◌++◌}
use Prim.Native.String.append.{nil, cons}
use mev_boost.Common.{
  ◌≡◌, ◌≢◌, refl, ap, ◌∙◌, inl, inr, String, List, [], ◌∷◌, Bool, true, false, ◌||◌, nat_beq_iff,
  arith, Bool-cases, All,
}
use mev_boost.Command.Entries.{is_comma, extend_first, split}
use text.Mathlib.TextEquality.{Char-path}

-- strings.Join(parts, ",")
unfoldable pub join : List String → String
join [] = ""
join (part ∷ []) = part
join (part ∷ next ∷ parts) = part ++ String.◌∷◌ "," (join (next ∷ parts))

abbrev pub has_comma : String → Bool
has_comma String.[] = false
has_comma (String.◌∷◌ c s) = is_comma c || has_comma s

-- No part has a separator.
abbrev pub IsSplit : List String → Type 0
IsSplit parts = All (λ part. has_comma part ≡ false) parts

comma_char : (c : Char) → is_comma c ≡ true → c ≡ ","
comma_char c h = Char-path c "," ((nat_beq_iff (code c) 44).0 h)

join-extend_first :
    (c : Char) (parts : List String) → join (extend_first c parts) ≡ String.◌∷◌ c (join parts)
unfolding extend_first join
join-extend_first c [] = refl
join-extend_first c (part ∷ []) = refl
join-extend_first c (part ∷ next ∷ parts) = cons c part _

extend_first-IsSplit :
    (c : Char) (parts : List String)
    → is_comma c ≡ false
    → IsSplit parts
    → IsSplit (extend_first c parts)
unfolding extend_first
extend_first-IsSplit c [] other all = (rw other refl, tt)
extend_first-IsSplit c (part ∷ parts) other all = (rw other all.0, all.1)

join-empty_first :
    (parts : List String) → parts ≢ [] → join ("" ∷ parts) ≡ String.◌∷◌ "," (join parts)
unfolding join
join-empty_first [] some_part = absurd (some_part refl)
join-empty_first (part ∷ parts) some_part = nil _

extend_first-ne : (c : Char) (parts : List String) → extend_first c parts ≢ []
unfolding extend_first
extend_first-ne c [] h = cc h
extend_first-ne c (part ∷ parts) h = cc h

pub split-ne : (s : String) → split s ≢ []
unfolding split
split-ne String.[] h = cc h
split-ne (String.◌∷◌ c s) h = elim (Bool-cases (is_comma c)) [
  | inl comma ↦ cc (rw (comma, split) at h)
  | inr other ↦ extend_first-ne c (split s) (rw (other, split) at h)
]

-- Joining the parts that `Split` finds gives the text back, and none of them has a comma.
pub join-split : (s : String) → (join (split s) ≡ s) × IsSplit (split s)
unfolding split join
join-split String.[] = (refl, (refl, tt))
join-split (String.◌∷◌ c s) = elim (Bool-cases (is_comma c)) [
  | inl comma ↦
      let (joined, all) = join-split s in
      rw (comma, split)
        (
          join-empty_first (split s) (split-ne s) ∙ rw (joined, comma_char c comma) refl,
          (refl, all),
        )
  | inr other ↦
      let (joined, all) = join-split s in
      rw (other, split)
        (
          join-extend_first c (split s) ∙ ap (λ t. String.◌∷◌ c t) joined,
          extend_first-IsSplit c (split s) other all,
        )
]

-- A part without a comma is found whole.
split-part : (part : String) → has_comma part ≡ false → split part ≡ part ∷ []
unfolding split extend_first
split-part String.[] h = refl
split-part (String.◌∷◌ c s) h =
    let other : is_comma c ≡ false = ground (arith, h) in
    rw (other, split) (rw (split-part s (ground (arith, h))) refl)

split-append :
    (part t : String) → has_comma part ≡ false → split (part ++ String.◌∷◌ "," t) ≡ part ∷ split t
unfolding split extend_first
split-append String.[] t h = rw (nil (String.◌∷◌ "," t)) refl
split-append (String.◌∷◌ c s) t h =
    let other : is_comma c ≡ false = ground (arith, h) in
    rw (cons c s (String.◌∷◌ "," t))
      (rw (other, split) (rw (split-append s t (ground (arith, h))) refl))

pub split-join : (parts : List String) → parts ≢ [] → IsSplit parts → split (join parts) ≡ parts
unfolding join
split-join [] some_part all = absurd (some_part refl)
split-join (part ∷ []) some_part all = split-part part all.0
split-join (part ∷ next ∷ parts) some_part all =
    split-append part (join (next ∷ parts)) all.0
    ∙ ap (λ ps. part ∷ ps) (split-join (next ∷ parts) (λ h. cc h) all.1)
