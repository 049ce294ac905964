-- ===== src/Txroot/Memory/Pad.antt =====
-- The loop of `packChunks` that pads the last chunk, in memory and by value.
use mev_boost.Common.{
  ℕ, zero, suc, ◌+◌, ◌≤◌, ◌<◌, ◌≡◌, refl, sym, ap, ◌∙◌, inl, inr, [], ◌∷◌, ◌++◌, true, false, ltb,
  ltb→lt, length, arith, Bool-cases,
}
use mev_boost.Types.{Bytes}
use mev_boost.Txroot.Result.{ok}
use mev_boost.Txroot.Root.{pad_loop}
use mev_boost.Txroot.Memory.{Heap, Slice, contents, append_byte, pad_slice}
use mev_boost.Txroot.Memory.Append.{IsValid, length-contents, Apart, append_byte-Appended}

pad_loop-short :
    (fuel : ℕ) (bs : Bytes)
    → ltb (length bs) 32 ≡ true
    → pad_loop (suc fuel) bs ≡ pad_loop fuel (bs ++ 0 ∷ [])
unfolding pad_loop
pad_loop-short fuel bs short = rw (short, pad_loop) refl

pad_loop-long :
    (fuel : ℕ) (bs : Bytes) → ltb (length bs) 32 ≡ false → pad_loop (suc fuel) bs ≡ ok bs
unfolding pad_loop
pad_loop-long fuel bs long = rw (long, pad_loop) refl

module _ (grow : ℕ → ℕ) (roomy : (n : ℕ) → n ≤ grow n) where
  -- What the loop that pads the last chunk gives.
  pub record Padded (fuel : ℕ) (h : Heap) (s : Slice) : Type 0 where
    pub padded : Slice
    pub heap : Heap
    pub ran : pad_slice grow fuel s h ≡ ok (padded, heap)
    pub value : pad_loop fuel (contents h s) ≡ ok (contents heap padded)
    pub others : (t : Slice) → Apart h s t → contents heap t ≡ contents h t

  pub pad_slice-Padded :
      (fuel : ℕ) (h : Heap) (s : Slice)
      → IsValid h s
      → 0 < fuel
      → 33 ≤ fuel + s.len
      → Padded fuel h s
  unfolding pad_slice
  pad_slice-Padded zero h s valid some_fuel enough = absurd (omega arith)
  pad_slice-Padded (suc fuel) h s valid some_fuel enough =
      let sized : length (contents h s) ≡ s.len = length-contents h s valid in
      elim (Bool-cases (ltb s.len 32)) [
        | inl short ↦
            let a = append_byte-Appended grow roomy 0 h s valid in
            let lt : s.len < 32 = ltb→lt s.len 32 short in
            let rest =
              pad_slice-Padded fuel (append_byte grow 0 s h).1 (append_byte grow 0 s h).0 a.valid
                (omega arith) (omega (arith, a.longer)) in
            record {
              padded = rest.padded;
              heap = rest.heap;
              ran = rw (short, pad_slice) rest.ran;
              value =
                  pad_loop-short fuel (contents h s) (rw sized short)
                  ∙ ap (pad_loop fuel) (sym a.value)
                  ∙ rest.value;
              others =
                  λ t apart. let (same, apart') = a.others t apart in rest.others t apart' ∙ same;
            }
        | inr long ↦ record {
          padded = s;
          heap = h;
          ran = rw (long, pad_slice) refl;
          value = pad_loop-long fuel (contents h s) (rw sized long);
          others = λ t apart. refl;
        }
      ]
