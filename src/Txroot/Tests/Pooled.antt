-- ===== src/Txroot/Tests/Pooled.antt =====
-- Runs of the pooled hashers, with a hasher that keeps what was written, and of the methods of
-- `HasherFunc`.
use mev_boost.Common.{◌+◌, ◌≡◌, refl, List, [], ◌∷◌, ◌++◌, map, true, replicate, arith}
use mev_boost.Types.{Bytes}
use mev_boost.Txroot.Tests.{table_hash, table_hash-HashLaws}
use mev_boost.Txroot.Hash.{Digest, Pools, get, hash, hash_keccak256, custom_sha256_hasher}
use mev_boost.Txroot.Hash.Laws.{DigestLaws, hash_lem}
use mev_boost.Txroot.Hash.Sequences.{
  Asks, finish, ask, with_function, with_closure, with_closure-with_function,
}
use mev_boost.Txroot.Merkle
use mev_boost.Txroot.Result.{ok}
use mev_boost.Txroot.Merkle.{bitwise_merkleize, merkleize, copy}
use mev_boost.Txroot.Merkle.Termination.{finishes, bitwise_merkleize-finishes}
use mev_boost.Txroot.Root.{mix_in_length, length_bytes, pack_chunks}
use mev_boost.Txroot.Memory.{Heap, Slice, contents, pack_chunks_in}
use mev_boost.Txroot.Memory.Append.{Apart}
use mev_boost.Txroot.Memory.Pack.{pack_chunks_in-pack_chunks}
use mev_boost.Txroot.Hasher.{HasherFunc, combi, mix_in}
use mev_boost.Txroot.Hasher.Laws.{methods_lem}

-- The state is what was written since the last reset.
abbrev digest : Digest Bytes
digest = record { create = []; write = λ bs h. h ++ bs; sum = table_hash; reset = λ h. [] }

digest_laws : DigestLaws digest table_hash
digest_laws = record {
  created = λ bs. refl;
  was_reset = λ bs h. refl;
  size = table_hash-HashLaws.size;
}

-- Another kind of hashers, whose hash of everything is the same.
abbrev other_digest : Digest Bytes
other_digest = record {
  create = [];
  write = λ bs h. h ++ bs;
  sum = λ h. replicate 32 205;
  reset = λ h. [];
}

other_laws : DigestLaws other_digest (λ bs. replicate 32 205)
other_laws = record { created = λ bs. refl; was_reset = λ bs h. refl; size = λ bs. refl }

-- The hashers in the pools have read bytes, and are used all the same.
abbrev pools : Pools Bytes Bytes
pools = record { sha256_pool = (9 ∷ []) ∷ []; keccak256_pool = (8 ∷ []) ∷ (7 ∷ []) ∷ [] }

hash_lem_example :
    ((h : Bytes) × (hash digest other_digest 1 (1 ∷ []) pools ≡ (
      table_hash (1 ∷ []),
      record pools { sha256_pool = h ∷ (get digest 1 pools.sha256_pool).pool },
    )))
    × ((k : Bytes) × (hash_keccak256 digest other_digest 1 (1 ∷ []) pools ≡ (
      replicate 32 205,
      record pools { keccak256_pool = k ∷ (get other_digest 1 pools.keccak256_pool).pool },
    )))
hash_lem_example =
    hash_lem digest other_digest table_hash (λ bs. replicate 32 205) digest_laws other_laws 1
      (1 ∷ []) pools

-- Two hashes, the second one of the first.
abbrev twice : Asks Bytes
twice = ask (replicate 64 0) (λ h. ask (h ++ h) finish)

with_closure-with_function_example :
    with_closure digest (custom_sha256_hasher digest 0 ((9 ∷ []) ∷ [])).0 twice
    ≡ with_function table_hash twice
with_closure-with_function_example =
    with_closure-with_function digest table_hash digest_laws 0 ((9 ∷ []) ∷ []) twice

-- A buffer that holds something already.
abbrev used : HasherFunc
used = record { b = replicate 64 3; hash_func = table_hash }

methods_lem_example :
    (combi (replicate 32 1) (replicate 32 2) used ≡ (
      Merkle.combi table_hash (replicate 32 1) (replicate 32 2),
      record used { b = replicate 32 1 ++ replicate 32 2 },
    ))
    × (mix_in (replicate 32 1) 7 used ≡ (
      mix_in_length table_hash (replicate 32 1) (length_bytes 7),
      record used { b = replicate 32 1 ++ length_bytes 7 },
    ))
methods_lem_example = methods_lem (replicate 32 1) (replicate 32 2) 7 used refl refl refl

bitwise_merkleize-finishes_example :
    finishes (bitwise_merkleize table_hash (replicate 3 (replicate 32 9)) 4 5) ≡ true
bitwise_merkleize-finishes_example =
    bitwise_merkleize-finishes table_hash (replicate 3 (replicate 32 9)) 4 5 (omega arith)

-- A chunk of one byte, in a tree for one chunk.
one_chunk : bitwise_merkleize table_hash ((7 ∷ []) ∷ []) 1 1 ≡ ok (7 ∷ replicate 31 0)
unfolding bitwise_merkleize merkleize copy
one_chunk = refl

-- A transaction of 40 bytes in an array of 50, behind which another window lies.
abbrev heap : Heap
heap = record { arrays = λ a. replicate 40 7 ++ replicate 10 8; next = 1 }

abbrev transaction : Slice
transaction = record { array = 0; offset = 0; len = 40; cap = 50 }

pack_chunks_in-pack_chunks_example :
    (chunks : List Slice) × (h' : Heap) × (pack_chunks_in (λ n. n + 8) transaction heap
      ≡ ok (chunks, h'))
    × (pack_chunks (contents heap transaction) ≡ ok (map (contents h') chunks))
    × ((t : Slice) → Apart heap transaction t → contents h' t ≡ contents heap t)
pack_chunks_in-pack_chunks_example =
    pack_chunks_in-pack_chunks (λ n. n + 8) heap transaction (λ n. omega arith)
      (record { within = omega arith; fits = omega arith; known = omega arith })
