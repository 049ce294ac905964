-- ===== src/Txroot/Hasher/Laws.antt =====
-- What the methods of `HasherFunc` compute does not depend on what the buffer held.
use mev_boost.Common.{
  ℕ, ◌≡◌, ap, ◌∙◌, ◌++◌, arith, length, take, drop, replicate, length-take, length-drop,
  take-append_self, drop-append_self,
}
use mev_boost.Types.{Bytes, Hash}
use mev_boost.Txroot.Merkle.{copy}
use mev_boost.Txroot.Merkle
use mev_boost.Txroot.Merkle.Correct.{copy_whole}
use mev_boost.Txroot.Root.{little_endian, length_bytes, mix_in_length}
use mev_boost.Txroot.Hasher.{HasherFunc, copy_at, hash, combi, mix_in}

-- The first half of the buffer is replaced.
left_half : (buf a : Bytes) → length buf ≡ 64 → length a ≡ 32 → copy (take 32 buf) a ≡ a
left_half buf a full sized = copy_whole (take 32 buf) a (omega (arith, length-take 32 buf))

-- The second half is replaced, behind a first half of 32 bytes.
right_half :
    (a rest b : Bytes) → length a ≡ 32 → length rest ≡ length b → copy_at 32 (a ++ rest) b ≡ a ++ b
unfolding copy_at
right_half a rest b sized same =
    rw (take-append_self 32 a rest sized, drop-append_self 32 a rest sized)
      (ap (λ r. a ++ r) (copy_whole rest b same))

-- The eight bytes, over 32 zeros.
number_half :
    (a : Bytes) (i : ℕ)
    → length a ≡ 32
    → copy_at 32 (a ++ replicate 32 0) (little_endian 8 i) ≡ a ++ length_bytes i
unfolding copy_at length_bytes
number_half a i sized =
    rw (take-append_self 32 a (replicate 32 0) sized, drop-append_self 32 a (replicate 32 0) sized)

-- With the buffer of 64 bytes that `NewHasherFunc` makes, whatever it holds by now, and for arrays of
-- 32 bytes, `Combi` returns the hash of the two arrays, one behind the other, and `MixIn` the
-- hash of the array and the number's eight bytes in little-endian order with 24 zeros behind them,
-- as `MixInLength` does; each leaves what it hashed in the buffer.
pub methods_lem :
    (a b : Hash) (i : ℕ) (h : HasherFunc)
    → length a ≡ 32
    → length b ≡ 32
    → length h.b ≡ 64
    → (combi a b h ≡ (Merkle.combi h.hash_func a b, record h { b = a ++ b }))
      × (mix_in a i h
          ≡ (mix_in_length h.hash_func a (length_bytes i), record h { b = a ++ length_bytes i }))
unfolding combi mix_in hash mix_in_length Merkle.combi
methods_lem a b i h sa sb full =
    let left : copy (take 32 h.b) a ++ drop 32 h.b ≡ a ++ drop 32 h.b =
      ap (λ l. l ++ drop 32 h.b) (left_half h.b a full sa) in
    let both : copy_at 32 (copy (take 32 h.b) a ++ drop 32 h.b) b ≡ a ++ b =
      rw left (right_half a (drop 32 h.b) b sa (omega (arith, length-drop 32 h.b))) in
    let zeroed : copy_at 32 (copy (take 32 h.b) a ++ drop 32 h.b) (replicate 32 0)
        ≡ a ++ replicate 32 0 =
      rw left
        (right_half a (drop 32 h.b) (replicate 32 0) sa (omega (arith, length-drop 32 h.b))) in
    (
      ap (λ (buf : Bytes). (h.hash_func buf, record h { b = buf })) both,
      ap (λ (buf : Bytes). (h.hash_func buf, record h { b = buf }))
          (ap (λ buf. copy_at 32 buf (little_endian 8 i)) zeroed ∙ number_half a i sa),
    )
