-- ===== src/Txroot/Memory/Chunks.antt =====
-- The chunks that the first loop of `packChunks` makes are windows of the bytes, the last one at
-- their end.
use mathlib.Core.Path.{subst}
use mev_boost.Common.{
  ℕ, zero, suc, ◌+◌, ◌≤◌, ◌<◌, ◌≡◌, refl, sym, ap, ◌∙◌, ◌⊎◌, inl, inr, List, [], ◌∷◌, ◌++◌, map,
  true, false, ltb, ltb→lt, if◌then◌else◌, length, arith, Bool-cases, All,
}
use mev_boost.Types.{Bytes}
use mev_boost.Txroot.Result.{ok}
use mev_boost.Txroot.Root.{slice, pack_loop}
use mev_boost.Txroot.Memory.{Heap, Slice, contents, slice_at, pack_slices}
use mev_boost.Txroot.Memory.Append.{IsValid, length-contents, Apart}
use mev_boost.Txroot.Memory.Windows.{contents-slice_at, map-append_one, All-append_one}

-- The end of the chunk that starts at i.
abbrev upto : ℕ → ℕ → ℕ
upto n i = if ltb n (i + 32) then n else i + 32

pack_loop-more :
    (fuel i : ℕ) (bs : Bytes) (chunks : List Bytes)
    → ltb i (length bs) ≡ true
    → pack_loop (suc fuel) i bs chunks
      ≡ pack_loop fuel (i + 32) bs (chunks ++ slice bs i (upto (length bs) i) ∷ [])
unfolding pack_loop
pack_loop-more fuel i bs chunks more = rw (more, pack_loop) refl

pack_loop-done :
    (fuel i : ℕ) (bs : Bytes) (chunks : List Bytes)
    → ltb i (length bs) ≡ false
    → pack_loop (suc fuel) i bs chunks ≡ ok chunks
unfolding pack_loop
pack_loop-done fuel i bs chunks done = rw (done, pack_loop) refl

-- A part of s.
abbrev pub Inside : Slice → Slice → Type 0
Inside s t = (t.array ≡ s.array) × (t.offset + t.len ≤ s.offset + s.len)

-- The last slice ends at e.
pub record LastEnds (h : Heap) (e : ℕ) (chunks : List Slice) : Type 0 where
  pub before : List Slice
  pub last : Slice
  pub split : chunks ≡ before ++ last ∷ []
  pub valid : IsValid h last
  pub ends : last.offset + last.len ≡ e

module _ (grow : ℕ → ℕ) (h : Heap) (s : Slice) (valid : IsValid h s) where
  pub record Packed (fuel i : ℕ) (chunks : List Slice) : Type 0 where
    pub slices : List Slice
    pub ran : pack_slices grow fuel i s chunks ≡ ok slices
    pub value :
        pack_loop fuel i (contents h s) (map (contents h) chunks) ≡ ok (map (contents h) slices)
    pub inside : All (Inside s) slices
    pub tail : (slices ≡ []) ⊎ LastEnds h (s.offset + s.len) slices

  next_chunk : (i j : ℕ) → i < s.len → i ≤ j → j ≤ s.len → IsValid h (slice_at s i j)
  next_chunk i j more le within = record {
    within = omega (arith, valid.within);
    fits = omega (arith, valid.fits, valid.within);
    known = valid.known;
  }

  pub pack_slices-Packed :
      (fuel i e : ℕ) (chunks : List Slice)
      → s.len < i + fuel
      → 0 < fuel
      → All (Inside s) chunks
      → (chunks ≡ []) ⊎ LastEnds h (s.offset + e) chunks
      → (s.len ≤ i → e ≡ s.len)
      → Packed fuel i chunks
  unfolding pack_slices
  pack_slices-Packed zero i e chunks enough some_fuel inside tail at_end = absurd (omega arith)
  pack_slices-Packed (suc fuel) i e chunks enough some_fuel inside tail at_end =
      let sized : length (contents h s) ≡ s.len = length-contents h s valid in
      let n = s.len in
      elim (Bool-cases (ltb i n)) [
        | inl more ↦
            let lt : i < s.len = ltb→lt i s.len more in
            let j = upto n i in
            let le : i ≤ j = ground arith in
            let within : j ≤ s.len = ground arith in
            let chunk = slice_at s i j in
            let same : slice (contents h s) i (upto (length (contents h s)) i) ≡ contents h chunk =
              ap (λ k. slice (contents h s) i (upto k i)) sized
              ∙ sym (contents-slice_at h s i j le within) in
            let appended =
              ap (λ b. map (contents h) chunks ++ b ∷ []) same
              ∙ sym (map-append_one (contents h) chunks chunk) in
            let rest =
              pack_slices-Packed fuel (i + 32) j (chunks ++ chunk ∷ []) (omega arith) (omega arith)
                (All-append_one (Inside s) chunks chunk inside (refl, omega arith))
                (inr (record {
                  before = chunks;
                  last = chunk;
                  split = refl;
                  valid = next_chunk i j lt le within;
                  ends = omega arith;
                }))
                (λ full. ground arith) in
            record {
              slices = rest.slices;
              ran = rw (more, pack_slices) rest.ran;
              value =
                  pack_loop-more fuel i (contents h s) (map (contents h) chunks) (rw sized more)
                  ∙ ap (pack_loop fuel (i + 32) (contents h s)) appended
                  ∙ rest.value;
              inside = rest.inside;
              tail = rest.tail;
            }
        | inr done ↦ record {
          slices = chunks;
          ran = rw (done, pack_slices) refl;
          value = pack_loop-done fuel i (contents h s) (map (contents h) chunks) (rw sized done);
          inside = inside;
          tail = elim tail [
            | inl none_yet ↦ inl none_yet
            | inr x ↦
                let e_full : e ≡ s.len = at_end (ground (arith, done)) in
                inr (subst (λ k. LastEnds h (s.offset + k) chunks) e_full x)
          ];
        }
      ]

pub map-same :
    (h h' : Heap) (s : Slice) (xs : List Slice)
    → s.array < h.next
    → All (Inside s) xs
    → ((t : Slice) → Apart h s t → contents h' t ≡ contents h t)
    → map (contents h') xs ≡ map (contents h) xs
map-same h h' s [] known inside others = refl
map-same h h' s (x ∷ xs) known inside others =
    rw (others x (omega (arith, inside.0.0, known), inr inside.0.1))
      (ap (λ ys. contents h x ∷ ys) (map-same h h' s xs known inside.1 others))
