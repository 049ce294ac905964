-- ===== src/Txroot/Memory/Pack.antt =====
-- `packChunks` in memory returns slices with the chunks, and changes no slice that is in use.
use mathlib.Core.Path.{subst}
use mev_boost.Common.{
  ℕ, ◌+◌, ◌≤◌, ◌≡◌, refl, sym, ap, ◌∙◌, inl, inr, List, [], ◌∷◌, ◌++◌, map, length, arith, All,
}
use mev_boost.Types.{Bytes}
use mev_boost.Txroot.Result.{ok}
use mev_boost.Txroot.Root.{pack_loop, pad_loop, pad_last, pack_chunks}
use mev_boost.Txroot.Memory.{Heap, Slice, contents, pack_slices, pad_slice, pack_chunks_in}
use mev_boost.Txroot.Memory.Append.{IsValid, length-contents, Apart}
use mev_boost.Txroot.Memory.Windows.{
  map-append_one, All-init, All-last, index-last, set-last, count-last, some-last,
}
use mev_boost.Txroot.Memory.Pad.{pad_slice-Padded}
use mev_boost.Txroot.Memory.Chunks.{Inside, pack_slices-Packed, map-same}

pad_last-last :
    (xs : List Bytes) (x y : Bytes)
    → pad_loop 33 x ≡ ok y
    → pad_last (xs ++ x ∷ []) ≡ ok (xs ++ y ∷ [])
unfolding pad_last
pad_last-last xs x y e =
    rw (count-last xs x, pad_last) (rw (index-last xs x) (rw e (ap ok (set-last xs x y))))

last-Apart :
    (h : Heap) (s last t : Slice)
    → last.array ≡ s.array
    → last.offset + last.len ≡ s.offset + s.len
    → Apart h s t
    → Apart h last t
last-Apart h s last t same ends apart = elim apart.1 [
  | inl other ↦ (apart.0, inl (λ e. other (e ∙ same)))
  | inr le ↦ (apart.0, inr (omega (arith, ends, le)))
]

pack_chunks-none : (bs : Bytes) → pack_loop (length bs + 1) 0 bs [] ≡ ok [] → pack_chunks bs ≡ ok []
unfolding pack_chunks
pack_chunks-none bs e = rw (e, pack_chunks) refl

pack_chunks-last :
    (bs : Bytes) (xs : List Bytes) (x y : Bytes)
    → pack_loop (length bs + 1) 0 bs [] ≡ ok (xs ++ x ∷ [])
    → pad_loop 33 x ≡ ok y
    → pack_chunks bs ≡ ok (xs ++ y ∷ [])
unfolding pack_chunks
pack_chunks-last bs xs x y e padded =
    rw (e, pack_chunks) (rw (some-last xs x) (pad_last-last xs x y padded))

module _ (grow : ℕ → ℕ) (h h' : Heap) (bytes : Slice) where
  pack_chunks_in-none :
      pack_slices grow (bytes.len + 1) 0 bytes [] ≡ ok [] → pack_chunks_in grow bytes h ≡ ok ([], h)
  unfolding pack_chunks_in
  pack_chunks_in-none e = rw (e, pack_chunks_in) refl

  pack_chunks_in-last :
      (xs : List Slice) (x y : Slice)
      → pack_slices grow (bytes.len + 1) 0 bytes [] ≡ ok (xs ++ x ∷ [])
      → pad_slice grow 33 x h ≡ ok (y, h')
      → pack_chunks_in grow bytes h ≡ ok (xs ++ y ∷ [], h')
  unfolding pack_chunks_in
  pack_chunks_in-last xs x y e padded =
      rw (e, pack_chunks_in)
        (rw (some-last xs x, count-last xs x)
          (rw (index-last xs x) (rw padded (ap (λ zs. ok (zs, h')) (set-last xs x y)))))

module _ (grow : ℕ → ℕ) (h : Heap) (bytes : Slice) where
  -- `packChunks` in memory returns slices whose contents are the chunks that it computes from the
  -- bytes by value, and leaves the contents of every slice that lies in another array or does not
  -- reach behind the end of the bytes, the bytes themselves included. It is assumed that the slice
  -- lies in its array, and that a new array for n bytes has at least n.
  pub pack_chunks_in-pack_chunks :
      ((n : ℕ) → n ≤ grow n)
      → IsValid h bytes
      → (chunks : List Slice) × (h' : Heap) × (pack_chunks_in grow bytes h ≡ ok (chunks, h'))
        × (pack_chunks (contents h bytes) ≡ ok (map (contents h') chunks))
        × ((t : Slice) → Apart h bytes t → contents h' t ≡ contents h t)
  pack_chunks_in-pack_chunks roomy valid =
      let bs = contents h bytes in
      let p =
        pack_slices-Packed grow h bytes valid (bytes.len + 1) 0 0 [] (omega arith) (omega arith) tt
          (inl refl) (λ full. omega (arith, full)) in
      let value : pack_loop (length bs + 1) 0 bs [] ≡ ok (map (contents h) p.slices) =
        ap (λ n. pack_loop (n + 1) 0 bs []) (length-contents h bytes valid) ∙ p.value in
      elim p.tail [
        | inl empty ↦ (
          [],
          h,
          pack_chunks_in-none grow h h bytes (p.ran ∙ ap ok empty),
          pack_chunks-none bs (value ∙ ap (λ xs. ok (map (contents h) xs)) empty),
          λ t apart. refl,
        )
        | inr x ↦
            let inside = subst (All (Inside bytes)) x.split p.inside in
            let same_array = (All-last (Inside bytes) x.before x.last inside).0 in
            let pad = pad_slice-Padded grow roomy 33 h x.last x.valid (omega arith) (omega arith) in
            let others : (t : Slice) → Apart h bytes t → contents pad.heap t ≡ contents h t =
              λ t apart. pad.others t (last-Apart h bytes x.last t same_array x.ends apart) in
            (
              x.before ++ pad.padded ∷ [],
              pad.heap,
              pack_chunks_in-last grow h pad.heap bytes x.before x.last pad.padded
                  (p.ran ∙ ap ok x.split) pad.ran,
              pack_chunks-last bs (map (contents h) x.before) (contents h x.last)
                    (contents pad.heap pad.padded)
                    (value
                      ∙ ap (λ xs. ok (map (contents h) xs)) x.split
                      ∙ ap ok (map-append_one (contents h) x.before x.last))
                    pad.value
                  ∙ ap ok (
                      ap (λ xs. xs ++ contents pad.heap pad.padded ∷ [])
                        (sym (
                          map-same h pad.heap bytes x.before valid.known
                            (All-init (Inside bytes) x.before x.last inside) others))
                      ∙ sym (map-append_one (contents pad.heap) x.before pad.padded)),
              others,
            )
      ]
