-- ===== src/Store/References/HandedOut.antt =====
-- The map that GetForkchoiceResponse hands out, after the mutex is given up: who writes to it.
use mathlib.Core.Path.{subst}
use mev_boost.Common.{
  ℕ, ◌<◌, ◌≡◌, ◌≢◌, refl, sym, ◌∙◌, ◌⊎◌, some, List, [], ◌∷◌, Bool, ◌==◌, Bool-cases, Option-cases,
  inl, inr, All, false, true, arith, String, string_eq, nat_eq,
}
use mev_boost.Common.Map.{GoMap, lookup, insert, keys}
use mev_boost.Common.Orders.{any}
use mev_boost.Store.{is_expired}
use mev_boost.Store.Abstract.{
  Request, get_payload, set_payload, get_responses, set_response, clean, run,
}
use mev_boost.Store.References.{
  ResponsesRef, RefStore, new_ref_store, get_response_map, make_response_map, write_response_map,
  set_response_map, serve_refs,
}
use mev_boost.Store.References.View.{assign_other}
use mev_boost.Store.References.Owners.{
  Lacks, Apart, IsOwned, All-insert, All-delete, lookup-All, cleanup_loop-keeps,
}
use mev_boost.Store.References.Refines.{run-IsOwned, new_ref_store-IsOwned}

-- A response for the id.
abbrev pub writes_to : String → Request → Bool
writes_to id (get_payload k) = false
writes_to id (set_payload now k p) = false
writes_to id (get_responses other) = false
writes_to id (set_response now other url rid) = other == id
writes_to id (clean now) = false

-- An entry of the id, or one with another map.
abbrev Elsewhere : String → ℕ → String × ResponsesRef → Type 0
Elsewhere id r entry = ((entry.0 == id) ≡ true) ⊎ (entry.1.payload ≢ r)

-- The map r was made, and no other id has it.
record IsHeld (id : String) (r : ℕ) (s : RefStore) : Type 0 where
  old : r < s.made
  own : All (Elsewhere id r) s.forkchoices

Lacks-Elsewhere :
    (id : String) (r : ℕ) (m : GoMap String ResponsesRef) → Lacks r m → All (Elsewhere id r) m
Lacks-Elsewhere id r [] h = tt
Lacks-Elsewhere id r (entry ∷ m) h = (inr h.0, Lacks-Elsewhere id r m h.1)

Apart-Elsewhere :
    (id : String) (c : ResponsesRef) (m : GoMap String ResponsesRef)
    → Apart m
    → lookup id m ≡ some c
    → All (Elsewhere id c.payload) m
unfolding lookup
Apart-Elsewhere id c [] apart found = cc
Apart-Elsewhere id c ((j, d) ∷ m) apart found = elim (Bool-cases (j == id)) [
  | inl same ↦
      let it : d ≡ c = cc (rw same at found) in
      let lacks = subst (λ (o : ResponsesRef). Lacks o.payload m) it apart.0 in
      (inl same, Lacks-Elsewhere id c.payload m lacks)
  | inr other ↦
      let tail = rw other at found in
      let lacks =
        lookup-All (λ (entry : String × ResponsesRef). entry.1.payload ≢ d.payload) id c m tail
          apart.0 in
      (inr (λ q. lacks (sym q)), Apart-Elsewhere id c m apart.1 tail)
]

-- The map is held on to, and is what it was.
abbrev Stays : String → ℕ → RefStore → RefStore → Type 0
Stays id r s s' = IsHeld id r s' × (s'.maps r ≡ s.maps r)

make_response_map-Stays :
    (now : ℕ) (other id : String) (r : ℕ) (s : RefStore)
    → IsHeld id r s
    → Stays id r s (make_response_map now other s)
unfolding make_response_map
make_response_map-Stays now other id r s h = elim (Option-cases (lookup other s.forkchoices)) [
  | inl absent ↦
      let c : ResponsesRef = record { payload = s.made; added_at = now } in
      rw (absent, make_response_map)
        (
          record {
            old = omega (arith, h.old);
            own =
                All-insert (Elsewhere id r) other c s.forkchoices
                  (inr (λ q. omega (arith, q, h.old))) h.own;
          },
          assign_other s.made r [] s.maps (λ q. omega (arith, q, h.old)),
        )
  | inr (c, found) ↦ rw (found, make_response_map) (h, refl)
]

write_response_map-Stays :
    (other url rid id : String) (r : ℕ) (s : RefStore)
    → (other == id) ≡ false
    → IsHeld id r s
    → Stays id r s (write_response_map other url rid s)
unfolding write_response_map
write_response_map-Stays other url rid id r s apart h =
    elim (Option-cases (lookup other s.forkchoices)) [
      | inl absent ↦ rw (absent, write_response_map) (h, refl)
      | inr (c, found) ↦ elim (lookup-All (Elsewhere id r) other c s.forkchoices found h.own) [
        | inl same ↦ absurd (cc (apart, same))
        | inr differs ↦
            rw (found, write_response_map)
              (
                record { old = h.old; own = h.own },
                assign_other c.payload r (insert url rid (s.maps c.payload)) s.maps
                    (λ q. differs (sym q)),
              )
      ]
    ]

serve_refs-Stays :
    (q : Request) (id : String) (r : ℕ) (s : RefStore)
    → writes_to id q ≡ false
    → IsHeld id r s
    → Stays id r s (serve_refs q s).0
unfolding serve_refs set_response_map
serve_refs-Stays (get_payload k) id r s silent h = (h, refl)
serve_refs-Stays (set_payload now k p) id r s silent h = (record { old = h.old; own = h.own }, refl)
serve_refs-Stays (get_responses other) id r s silent h = (h, refl)
serve_refs-Stays (set_response now other url rid) id r s silent h =
    let s' = make_response_map now other s in
    let (held, same) = make_response_map-Stays now other id r s h in
    let (held', same') = write_response_map-Stays other url rid id r s' silent held in
    (held', same' ∙ same)
serve_refs-Stays (clean now) id r s silent h = (
  record {
    old = h.old;
    own =
        cleanup_loop-keeps (λ (c : ResponsesRef). is_expired now c.added_at) (All (Elsewhere id r))
          (All-delete (Elsewhere id r)) (keys s.forkchoices) s.forkchoices h.own;
  },
  refl,
)

run-Stays :
    (requests : List Request) (id : String) (r : ℕ) (s : RefStore)
    → any (writes_to id) requests ≡ false
    → IsHeld id r s
    → Stays id r s (run serve_refs requests s).1
run-Stays [] id r s silent h = (h, refl)
run-Stays (q ∷ requests) id r s silent h =
    let (held, same) = serve_refs-Stays q id r s (ground arith) h in
    let (held', same') = run-Stays requests id r (serve_refs q s).0 (ground arith) held in
    (held', same' ∙ same)

get_response_map-IsHeld :
    (id : String) (r : ℕ) (s : RefStore)
    → IsOwned s
    → get_response_map id s ≡ some r
    → IsHeld id r s
unfolding get_response_map
get_response_map-IsHeld id r s o given = elim (Option-cases (lookup id s.forkchoices)) [
  | inl absent ↦ absurd (cc (rw (absent, get_response_map) at given))
  | inr (c, found) ↦
      let it : c.payload ≡ r = cc (rw (found, get_response_map) at given) in
      subst (λ n. IsHeld id n s) it
        (record {
          old =
              lookup-All (λ (entry : String × ResponsesRef). entry.1.payload < s.made) id c
                s.forkchoices found o.below;
          own = Apart-Elsewhere id c s.forkchoices o.apart found;
        })
]

-- When GetForkchoiceResponse has handed out the map under an id, after any calls from a new store
-- on, the map holds what it held then after any further calls but responses for that id: after
-- responses for other ids, payloads, and cleanups, which may take the id away.
pub handed_out :
    (before after : List Request) (id : String) (r : ℕ)
    → get_response_map id (run serve_refs before new_ref_store).1 ≡ some r
    → any (writes_to id) after ≡ false
    → (run serve_refs after (run serve_refs before new_ref_store).1).1.maps r
      ≡ (run serve_refs before new_ref_store).1.maps r
handed_out before after id r given silent =
    let s = (run serve_refs before new_ref_store).1 in
    let owned = run-IsOwned before new_ref_store new_ref_store-IsOwned in
    (run-Stays after id r s silent (get_response_map-IsHeld id r s owned given)).1
