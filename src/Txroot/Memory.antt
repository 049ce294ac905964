-- ===== src/Txroot/Memory.antt =====
-- `packChunks` of lib/txroot/txroot.go in memory: a Go slice is a window of an array, and `append`
-- writes into the array where its capacity allows, behind the end of the slice.
use mev_boost.Common.{
  ℕ, zero, suc, ◌+◌, ◌-◌, List, [], ◌∷◌, ◌++◌, Bool, ltb, nat_beq, if◌then◌else◌, length, set, take,
  drop, replicate,
}
use mev_boost.Types.{Bytes}
use mev_boost.Txroot.Result.{Result, ok, out_of_fuel, ◌>>=◌, index}
pub mod Append
pub mod Pad
pub mod Windows
pub mod Chunks
pub mod Pack

-- The arrays by their addresses, which are below `next`.
pub record Heap : Type 0 where
  pub arrays : ℕ → Bytes
  pub next : ℕ

pub record Slice : Type 0 where
  pub array : ℕ
  pub offset : ℕ
  pub len : ℕ
  pub cap : ℕ

abbrev pub contents : Heap → Slice → Bytes
contents h s = take s.len (drop s.offset (h.arrays s.array))

-- s[i:j]
abbrev pub slice_at : Slice → ℕ → ℕ → Slice
slice_at s i j = record { array = s.array; offset = s.offset + i; len = j - i; cap = s.cap - i }

abbrev pub write : ℕ → Bytes → Heap → Heap
write address bytes h = record h { arrays = λ k. if nat_beq k address then bytes else h.arrays k }

-- The capacity of a new array is up to the runtime: `grow`.
module _ (grow : ℕ → ℕ) where
  -- append(s, v)
  unfoldable pub append_byte : ℕ → Slice → Heap → Slice × Heap
  append_byte v s h =
      if ltb s.len s.cap
      then (
        record s { len = suc s.len },
        write s.array (set (h.arrays s.array) (s.offset + s.len) v) h,
      )
      else (
        record { array = h.next; offset = 0; len = suc s.len; cap = grow (suc s.len) },
        record (write h.next (contents h s ++ v ∷ replicate (grow (suc s.len) - suc s.len) 0) h) {
          next = suc h.next;
        },
      )

  -- for i := …; i < numItems; i += 32 { … }
  unfoldable pub pack_slices : ℕ → ℕ → Slice → List Slice → Result (List Slice)
  pack_slices zero i s chunks = out_of_fuel
  pack_slices (suc fuel) i s chunks =
      let num_items = s.len in
      let j = if ltb num_items (i + 32) then num_items else i + 32 in
      let rest = pack_slices fuel (i + 32) s (chunks ++ slice_at s i j ∷ []) in
      if ltb i num_items then rest else ok chunks

  -- for len(lastChunk) < 32 { lastChunk = append(lastChunk, 0) }
  unfoldable pub pad_slice : ℕ → Slice → Heap → Result (Slice × Heap)
  pad_slice zero last_chunk h = out_of_fuel
  pad_slice (suc fuel) last_chunk h =
      let (appended, h') = append_byte 0 last_chunk h in
      let rest = pad_slice fuel appended h' in
      if ltb last_chunk.len 32 then rest else ok (last_chunk, h)

  unfoldable pub pack_chunks_in : Slice → Heap → Result (List Slice × Heap)
  pack_chunks_in bytes h = pack_slices (bytes.len + 1) 0 bytes [] >>= λ chunks.
      if nat_beq (length chunks) 0
      then ok (chunks, h)
      else index chunks (length chunks - 1) >>= λ last_chunk.
          pad_slice 33 last_chunk h >>= λ (padded, h').
          ok (set chunks (length chunks - 1) padded, h')
