-- ===== src/Service/System/Frozen/Ids.antt =====
-- The boost payload ids of the running calls, and which of them are written under.
use mathlib.Core.Path.{subst}
use mathlib.Core.List.{Memᴰ}
use mev_boost.Common.{
  ◌≡◌, refl, String, Option, none, some, List, [], ◌∷◌, Bool, true, false, ◌||◌, ◌==◌, string_eq,
  arith, beq_refl, All, length,
}
use mev_boost.Common.Map.{contains}
use mev_boost.Types.{Bytes}
use mev_boost.Service.System.{
  Call, forkchoice, forkchoice_answered, header, proposal, answered, crashed, owned, with_id,
  ids_of,
}
use text.Mathlib.TextEquality.{eq_iff}

abbrev pub Distinct : List String → Type 0
Distinct [] = Unit
Distinct (id ∷ ids) = (contains id ids ≡ false) × Distinct ids

-- Ids go, and none comes.
pub record Shrinks (ids ids' : List String) : Type 0 where
  pub fewer : (id : String) → contains id ids ≡ false → contains id ids' ≡ false
  pub distinct : Distinct ids → Distinct ids'

pub Shrinks-refl : (ids : List String) → Shrinks ids ids
Shrinks-refl ids = record { fewer = λ id h. h; distinct = λ d. d }

-- The counter of `wg` is the number of goroutines, and the handler has waited for them.
abbrev pub IsWaited : Call → Type 0
IsWaited (forkchoice id wg urls valid) = length urls ≡ wg
IsWaited (forkchoice_answered id success urls) = urls ≡ []
IsWaited (header id left r) = Unit
IsWaited (proposal block_hash) = Unit
IsWaited (answered a) = Unit
IsWaited crashed = Unit

module _ (string : Bytes → String) where
  pub Shrinks-with_id :
      (o : Option Bytes) (ids ids' : List String)
      → Shrinks ids ids'
      → Shrinks (with_id string o ids) (with_id string o ids')
  unfolding contains
  Shrinks-with_id none ids ids' sh = sh
  Shrinks-with_id (some id) ids ids' sh = record {
    fewer = λ x h. ground (arith, sh.fewer x);
    distinct = λ d. (sh.fewer (string id) d.0, sh.distinct d.1);
  }

  pub Shrinks-drop : (o : Option Bytes) (ids : List String) → Shrinks (with_id string o ids) ids
  unfolding contains
  Shrinks-drop none ids = Shrinks-refl ids
  Shrinks-drop (some id) ids = record { fewer = λ x h. ground arith; distinct = λ d. d.1 }

  -- A call that writes responses under the id.
  abbrev pub writes : String → Call → Bool
  writes b (forkchoice id wg urls valid) = string id == b
  writes b (forkchoice_answered id success []) = false
  writes b (forkchoice_answered id success (url ∷ urls)) = string id == b
  writes b (header id left r) = false
  writes b (proposal block_hash) = false
  writes b (answered a) = false
  writes b crashed = false

  abbrev pub any_writes : String → List Call → Bool
  any_writes b [] = false
  any_writes b (call ∷ calls) = writes b call || any_writes b calls

  abbrev pub owns : String → Option Bytes → Bool
  owns b none = false
  owns b (some id) = string id == b

  pub contains-with_id :
      (b : String) (o : Option Bytes) (ids : List String)
      → contains b (with_id string o ids) ≡ (owns b o || contains b ids)
  unfolding contains
  contains-with_id b none ids = refl
  contains-with_id b (some id) ids = refl

  -- A call that writes has the id.
  writes-owned : (b : String) (call : Call) → owns b (owned call) ≡ false → writes b call ≡ false
  writes-owned b (forkchoice id wg urls valid) h = h
  writes-owned b (forkchoice_answered id true []) h = refl
  writes-owned b (forkchoice_answered id true (url ∷ urls)) h = h
  writes-owned b (forkchoice_answered id false []) h = refl
  writes-owned b (forkchoice_answered id false (url ∷ urls)) h = h
  writes-owned b (header id left r) h = refl
  writes-owned b (proposal block_hash) h = refl
  writes-owned b (answered a) h = refl
  writes-owned b crashed h = refl

  no_id-no_write :
      (b : String) (calls : List Call)
      → contains b (ids_of string calls) ≡ false
      → any_writes b calls ≡ false
  no_id-no_write b [] h = refl
  no_id-no_write b (call ∷ calls) h = ground (
    arith,
    contains-with_id b (owned call) (ids_of string calls),
    writes-owned b call,
    no_id-no_write b calls,
  )

  Distinct-head :
      (b : String) (o : Option Bytes) (ids : List String)
      → Distinct (with_id string o ids)
      → contains b ids ≡ true
      → owns b o ≡ false
  Distinct-head b none ids d h = refl
  Distinct-head b (some id) ids d h = ground (arith, eq_iff (string id) b, d.0)

  Distinct-tail :
      (o : Option Bytes) (ids : List String) → Distinct (with_id string o ids) → Distinct ids
  Distinct-tail none ids d = d
  Distinct-tail (some id) ids d = d.1

  -- Nobody writes under the id of a call that was answered when its goroutines had run, and
  -- nobody else gets it.
  pub answered_silent :
      (id : Bytes) (urls : List String) (calls : List Call)
      → Distinct (ids_of string calls)
      → All IsWaited calls
      → Memᴰ (forkchoice_answered id true urls) calls
      → (any_writes (string id) calls ≡ false) × (contains (string id) (ids_of string calls) ≡ true)
  unfolding contains
  answered_silent id urls [] d all m = elim m [ ]
  answered_silent id urls (call ∷ calls) d all (Memᴰ.head e) =
      subst
        (λ c.
          IsWaited c
          → Distinct (ids_of string (c ∷ calls))
          → (any_writes (string id) (c ∷ calls) ≡ false)
            × (contains (string id) (ids_of string (c ∷ calls)) ≡ true))
        e
        (λ no_urls fresh.
          (rw no_urls (no_id-no_write (string id) calls fresh.0), rw (beq_refl (string id)) refl))
        all.0 d
  answered_silent id urls (call ∷ calls) d all (Memᴰ.tail m) =
      let (silent, has) = answered_silent id urls calls (Distinct-tail (owned call) _ d) all.1 m in
      let head = Distinct-head (string id) (owned call) (ids_of string calls) d has in
      (
        ground (arith, writes-owned (string id) call, silent, head),
        ground (arith, contains-with_id (string id) (owned call) (ids_of string calls), has),
      )
