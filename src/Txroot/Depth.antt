-- ===== src/Txroot/Depth.antt =====
-- `Depth` of lib/txroot/txroot.go: the depth of a tree of the given size.
use Prim.Native.Nat.{bit_or}
use mev_boost.Common.{ℕ, ◌+◌, ◌-◌, ◌*◌, ◌/◌, ◌^◌, Bool, not, nat_beq, if◌then◌else◌}
pub mod Bounds

-- v & ^(2 ^ k - 1): v with its lowest k bits cleared.
abbrev pub high_bits : ℕ → ℕ → ℕ
high_bits v k = v / 2 ^ k * 2 ^ k

-- The variables of the search: v, and the bits of the result that are set so far.
pub record Search : Type 0 where
  pub v : ℕ
  pub out : ℕ

-- if v&mask != 0 { v >>= bit; out |= bit }, where the mask clears `bit` bits.
unfoldable pub narrow : ℕ → Search → Search
narrow bit s =
    if not (nat_beq (high_bits s.v bit) 0)
    then record { v = s.v / 2 ^ bit; out = bit_or s.out bit }
    else s

-- if v&mask0 != 0 { out |= bit0 }, the last of the six tests, which leaves v as it is.
unfoldable pub last : Search → Search
last s = if not (nat_beq (high_bits s.v 1) 0) then record s { out = bit_or s.out 1 } else s

unfoldable pub depth : ℕ → ℕ
depth v =
    if nat_beq v 0
    then 0
    else (last (
        narrow 2 (narrow 4 (narrow 8 (narrow 16 (narrow 32 (record { v = v - 1; out = 0 }))))))).out
      + 1
