-- ===== src/Txroot/Hash/Sequences.antt =====
-- `CustomSHA256Hasher`: one hasher and one array serve all calls of the closure, in whatever order
-- and with whatever arguments they come.
use mev_boost.Common.{ℕ, ◌≡◌, refl, ap, ◌∙◌, Option, none, some, List, length}
use mev_boost.Types.{Bytes}
use mev_boost.Txroot.Hash.{Digest, get, Custom, reset_or_create, custom_sha256_hasher, call}
use mev_boost.Txroot.Hash.Laws.{DigestLaws, sum_into_full}

-- A computation that asks for hashes, where what it asks may depend on the answers before.
pub data Asks (A : Type 0) : Type 0 where
  finish : A → Asks A
  ask : Bytes → (Bytes → Asks A) → Asks A

-- The answers come from a function.
abbrev pub with_function : {A : Type 0} → (Bytes → Bytes) → Asks A → A
with_function f (finish a) = a
with_function f (ask bytes k) = with_function f (k (f bytes))

module _ {H : Type 0} (digest : Digest H) where
  -- The answers come from the closure, whose state each call changes.
  unfoldable pub with_closure : {A : Type 0} → Custom digest → Asks A → A
  with_closure c (finish a) = a
  with_closure c (ask bytes k) =
      let (answer, c') = call digest bytes c in with_closure c' (k answer)

  module _ (hash_fn : Bytes → Bytes) (laws : DigestLaws digest hash_fn) where
    -- The hasher has read nothing, and the array has 32 bytes.
    record IsReady (c : Custom digest) : Type 0 where
      unread : (bs : Bytes) → digest.sum (digest.write bs c.hasher) ≡ hash_fn bs
      sized : length c.h ≡ 32

    call_answer :
        (bytes : Bytes) (c : Custom digest)
        → IsReady c
        → ((call digest bytes c).0 ≡ hash_fn bytes) × IsReady (call digest bytes c).1
    unfolding call
    call_answer bytes c ready =
        let e : (call digest bytes c).0 ≡ hash_fn bytes =
          rw (ready.unread bytes)
            (sum_into_full c.h (hash_fn bytes) ready.sized (laws.size bytes)) in
        (
          e,
          record {
            unread = λ bs. laws.was_reset bs (digest.write bytes c.hasher);
            sized = ap (λ (b : Bytes). length b) e ∙ laws.size bytes;
          },
        )

    with_closure-IsReady :
        {A : Type 0} (t : Asks A) (c : Custom digest)
        → IsReady c
        → with_closure c t ≡ with_function hash_fn t
    unfolding with_closure
    with_closure-IsReady (finish a) c ready = refl
    with_closure-IsReady (ask bytes k) c ready =
        let (answer, ready') = call_answer bytes c ready in
        rw answer (with_closure-IsReady (k (hash_fn bytes)) (call digest bytes c).1 ready')

    reset_or_create-unread :
        (item : Option H) (bs : Bytes)
        → digest.sum (digest.write bs (reset_or_create digest item)) ≡ hash_fn bs
    reset_or_create-unread none bs = laws.created bs
    reset_or_create-unread (some h) bs = laws.was_reset bs h

  -- The function that `CustomSHA256Hasher` returns, made from any hasher of any pool, answers every
  -- sequence of calls, in which an argument may depend on the answers before, as the hash function
  -- itself does: no call sees what an earlier one wrote. It is assumed of the hasher that a new one
  -- and one that was reset have read nothing, and that a hash has 32 bytes.
  pub with_closure-with_function :
      {A : Type 0} (hash_fn : Bytes → Bytes)
      → DigestLaws digest hash_fn
      → (pick : ℕ) (pool : List H) (t : Asks A)
      → with_closure (custom_sha256_hasher digest pick pool).0 t ≡ with_function hash_fn t
  unfolding custom_sha256_hasher
  with_closure-with_function hash_fn laws pick pool t =
      with_closure-IsReady hash_fn laws t _ (record {
        unread = λ bs. reset_or_create-unread hash_fn laws (get digest pick pool).item bs;
        sized = refl;
      })
