-- ===== src/Txroot/Root/Pack.antt =====
-- `packChunks` cuts the bytes into chunks of 32, the last one padded with zeros.
use native.Mathlib.Decide.{dec_lt}
use mathlib.Core.Path.{fun_ext, ap₂}
use mev_boost.Common.{
  ℕ, zero, suc, ◌+◌, ◌-◌, ◌*◌, ◌/◌, ◌<◌, ◌≡◌, refl, sym, ap, ◌∙◌, false, ltb, lt→ltb, if◌then◌else◌,
  List, [], ◌∷◌, ◌++◌, arith, append-nil, append_assoc, length, take, drop, replicate, concat,
  nat_beq, nat_beq_ne, take_beyond, take_short, drop-drop, take-append_of_le, take_padded,
  take-append-drop, length-append, length-drop, length-take,
}
use mev_boost.Types.{Bytes}
use mev_boost.Txroot.Result.{Result, ok, over_limit, panic, out_of_fuel, ◌>>=◌, index}
use mev_boost.Txroot.Merkle.Tree.{AreChunks}
use mev_boost.Txroot.Root.{slice, pack_loop, pad_loop, pad_last, pack_chunks}

-- The number of chunks of 32 bytes that n bytes take.
abbrev pub chunk_count : ℕ → ℕ
chunk_count n = (n + 31) / 32

-- The first n chunks, where zeros follow the bytes.
unfoldable pub ssz_chunks : ℕ → Bytes → List Bytes
ssz_chunks zero bytes = []
ssz_chunks (suc n) bytes = take 32 (bytes ++ replicate 32 0) ∷ ssz_chunks n (drop 32 bytes)

-- The chunks before padding.
raw_chunks : ℕ → Bytes → List Bytes
raw_chunks zero bytes = []
raw_chunks (suc n) bytes = take 32 bytes ∷ raw_chunks n (drop 32 bytes)

-- The bounds of a slice that ends behind the bytes are cut to their length.
slice_lem :
    (bytes : Bytes) (i j : ℕ)
    → i < length bytes
    → j ≡ (if ltb (length bytes) (i + 32) then length bytes else i + 32)
    → slice bytes i j ≡ take 32 (drop i bytes)
slice_lem bytes i j h e = elim (dec_lt (length bytes) (i + 32)) [
  | yes short ↦
      let left : j ≡ length bytes = e ∙ rw (lt→ltb _ _ short) in
      take_beyond (j - i) 32 (drop i bytes) (omega (arith, left, length-drop i bytes))
        (omega (arith, length-drop i bytes))
  | no long ↦
      let right : j ≡ i + 32 = ground (arith, e) in
      let same : j - i ≡ 32 = omega (arith, right) in ap (λ n. take n (drop i bytes)) same
]

pack_loop-raw_chunks :
    (fuel k i : ℕ) (bytes : Bytes) (acc : List Bytes)
    → k ≡ chunk_count (length bytes - i)
    → k < fuel
    → pack_loop fuel i bytes acc ≡ ok (acc ++ raw_chunks k (drop i bytes))
unfolding pack_loop raw_chunks
pack_loop-raw_chunks zero k i bytes acc e h = absurd (omega arith)
pack_loop-raw_chunks (suc fuel) zero i bytes acc e h =
    let test : ltb i (length bytes) ≡ false = ground (arith, e) in
    rw test (ap ok (sym (append-nil acc)))
pack_loop-raw_chunks (suc fuel) (suc k) i bytes acc e h =
    let test : i < length bytes = omega arith in
    let j = if ltb (length bytes) (i + 32) then length bytes else i + 32 in
    let chunk = slice_lem bytes i j test refl in
    let next = drop-drop 32 i (i + 32) bytes refl in
    rw (lt→ltb i (length bytes) test) (
      pack_loop-raw_chunks fuel k (i + 32) bytes (acc ++ slice bytes i j ∷ []) (omega arith)
        (omega arith)
      ∙ ap ok (append_assoc acc (slice bytes i j ∷ []) _)
      ∙ rw (chunk, next) refl)

pad_loop-zeros :
    (fuel m : ℕ) (c : Bytes)
    → length c + m ≡ 32
    → m < fuel
    → pad_loop fuel c ≡ ok (c ++ replicate m 0)
unfolding pad_loop
pad_loop-zeros zero m c e h = absurd (omega arith)
pad_loop-zeros (suc fuel) zero c e h =
    let test : ltb (length c) 32 ≡ false = ground arith in rw test (ap ok (sym (append-nil c)))
pad_loop-zeros (suc fuel) (suc m) c e h =
    let test : length c < 32 = omega arith in
    rw (lt→ltb (length c) 32 test) (
      pad_loop-zeros fuel m (c ++ 0 ∷ []) (omega (arith, length-append c (0 ∷ []))) (omega arith)
      ∙ ap ok (append_assoc c (0 ∷ []) (replicate m 0)))

bind_assoc :
    {A B C : Type 0} (m : Result A) (f : A → Result B) (g : B → Result C)
    → (m >>= λ a. f a >>= g) ≡ (m >>= f >>= g)
bind_assoc (ok a) f g = refl
bind_assoc over_limit f g = refl
bind_assoc panic f g = refl
bind_assoc out_of_fuel f g = refl

pad_last-cons :
    (c x : Bytes) (xs : List Bytes)
    → pad_last (c ∷ x ∷ xs) ≡ (pad_last (x ∷ xs) >>= λ r. ok (c ∷ r))
unfolding pad_last
pad_last-cons c x xs =
    let l = length xs in
    let outer : suc (suc l) - 1 ≡ suc l = omega arith in
    let inner : suc l - 1 ≡ l = omega arith in
    let last = index (x ∷ xs) l in
    rw (outer, inner)
      (ap (λ k. last >>= k) (fun_ext λ y. bind_assoc (pad_loop 33 y) _ _)
        ∙ bind_assoc last _ (λ r. ok (c ∷ r)))

pad_last-ssz_chunks :
    (k : ℕ) (bytes : Bytes)
    → suc k ≡ chunk_count (length bytes)
    → pad_last (raw_chunks (suc k) bytes) ≡ ok (ssz_chunks (suc k) bytes)
unfolding raw_chunks ssz_chunks
pad_last-ssz_chunks zero bytes e =
    let m = 32 - length bytes in
    rw (take_short 32 bytes (omega arith), take_padded bytes 32 m 32 (omega arith) (omega arith))
      (unfold pad_last in rw (pad_loop-zeros 33 m bytes (omega arith) (omega arith)))
pad_last-ssz_chunks (suc k) bytes e =
    let ih = pad_last-ssz_chunks k (drop 32 bytes) (omega (arith, length-drop 32 bytes)) in
    pad_last-cons _ _ _
    ∙ ap (λ r. r >>= λ cs. ok (take 32 bytes ∷ cs)) ih
    ∙ ap (λ c. ok (c ∷ ssz_chunks (suc k) (drop 32 bytes)))
        (sym (take-append_of_le 32 bytes (replicate 32 0) (omega arith)))

pad_if_any :
    (k : ℕ) (bytes : Bytes)
    → k ≡ chunk_count (length bytes)
    → (if nat_beq (length (raw_chunks k bytes)) 0
        then ok (raw_chunks k bytes)
        else pad_last (raw_chunks k bytes))
      ≡ ok (ssz_chunks k bytes)
unfolding raw_chunks ssz_chunks
pad_if_any zero bytes e = refl
pad_if_any (suc k) bytes e =
    rw (nat_beq_ne (suc (length (raw_chunks k (drop 32 bytes)))) 0 (λ z. omega arith))
      (pad_last-ssz_chunks k bytes e)

pub pack_chunks-ssz_chunks :
    (bytes : Bytes) → pack_chunks bytes ≡ ok (ssz_chunks (chunk_count (length bytes)) bytes)
unfolding pack_chunks
pack_chunks-ssz_chunks bytes =
    rw
      (pack_loop-raw_chunks (length bytes + 1) (chunk_count (length bytes)) 0 bytes [] (omega arith)
        (omega arith))
      (pad_if_any (chunk_count (length bytes)) bytes refl)

pub ssz_chunks-AreChunks : (n : ℕ) (bytes : Bytes) → AreChunks (ssz_chunks n bytes)
unfolding ssz_chunks
ssz_chunks-AreChunks zero bytes = tt
ssz_chunks-AreChunks (suc n) bytes = (
  omega (arith, length-take 32 (bytes ++ replicate 32 0), length-append bytes (replicate 32 0)),
  ssz_chunks-AreChunks n (drop 32 bytes),
)

pub length-ssz_chunks : (n : ℕ) (bytes : Bytes) → length (ssz_chunks n bytes) ≡ n
unfolding ssz_chunks
length-ssz_chunks zero bytes = refl
length-ssz_chunks (suc n) bytes = ap suc (length-ssz_chunks n (drop 32 bytes))

concat-ssz_chunks :
    (n m : ℕ) (bytes : Bytes)
    → n ≡ chunk_count (length bytes)
    → length bytes + m ≡ 32 * n
    → concat (ssz_chunks n bytes) ≡ bytes ++ replicate m 0
unfolding ssz_chunks
concat-ssz_chunks zero m [] e k =
    let none_left : 0 ≡ m = omega arith in ap (λ j. replicate j 0) none_left
concat-ssz_chunks zero m (x ∷ xs) e k = absurd (omega arith)
concat-ssz_chunks (suc zero) m bytes e k =
    append-nil _ ∙ take_padded bytes 32 m 32 (omega arith) (omega arith)
concat-ssz_chunks (suc (suc n)) m bytes e k =
    ap₂ ◌++◌ (take-append_of_le 32 bytes (replicate 32 0) (omega arith)) (
      concat-ssz_chunks (suc n) m (drop 32 bytes) (omega (arith, length-drop 32 bytes))
        (omega (arith, length-drop 32 bytes)))
    ∙ sym (append_assoc (take 32 bytes) (drop 32 bytes) (replicate m 0))
    ∙ ap (λ bs. bs ++ replicate m 0) (take-append-drop 32 bytes)

-- `packChunks` returns, for any bytes, chunks of 32 bytes each that make up the bytes with zeros
-- behind them, and as few chunks as hold the bytes: their number is the number of bytes divided by
-- 32, rounded up. Its loops end, and it does not panic.
pub pack_chunks_lem :
    (bytes : Bytes)
    → (chunks : List Bytes) × (pack_chunks bytes ≡ ok chunks)
      × AreChunks chunks
      × (length chunks ≡ (length bytes + 31) / 32)
      × (concat chunks ≡ bytes ++ replicate (32 * length chunks - length bytes) 0)
pack_chunks_lem bytes =
    let n = chunk_count (length bytes) in
    let len = length-ssz_chunks n bytes in
    (
      ssz_chunks n bytes,
      pack_chunks-ssz_chunks bytes,
      ssz_chunks-AreChunks n bytes,
      len,
      rw len (concat-ssz_chunks n (32 * n - length bytes) bytes refl (omega arith)),
    )
