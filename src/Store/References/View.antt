-- ===== src/Store/References/View.antt =====
-- The values of a store with references, and what SetForkchoiceResponse does to them.
use mathlib.Core.Path.{subst}
use mev_boost.Common.{
  ℕ, suc, ◌<◌, ◌≡◌, ◌≢◌, refl, sym, ap, ◌∙◌, some, [], ◌∷◌, ◌==◌, Bool-cases, Option-cases, inl,
  inr, arith, String, string_eq, nat_eq, beq_refl, bytes_eq, nat_beq_ne,
}
use mev_boost.Common.Map.{GoMap, lookup, insert, lookup-insert_self}
use mev_boost.Store.{Store, new_forkchoice_response_container, set_forkchoice_response}
use mev_boost.Store.Abstract.{map_option}
use mev_boost.Store.Locks.{make_container, write_response}
use mev_boost.Store.Locks.Responses.{
  responses_store, write_response-some, write_response-make_container, make_container_found,
  make_container_new,
}
use mev_boost.Store.References.{
  ResponsesRef, RefStore, assign, make_response_map, write_response_map, set_response_map,
  container_of,
}
use mev_boost.Store.References.Values.{map_values, lookup-map_values, insert-map_values}
use mev_boost.Store.References.Owners.{
  Lacks, Apart, IsOwned, below-Lacks, below-suc, Apart-insert, All-insert, lookup-All,
}

abbrev Maps : Type 0
Maps = ℕ → GoMap String String

assign_same : (r : ℕ) (x : GoMap String String) (maps : Maps) → assign r x maps r ≡ x
assign_same r x maps = rw (beq_refl r) refl

pub assign_other :
    (r q : ℕ) (x : GoMap String String) (maps : Maps) → q ≢ r → assign r x maps q ≡ maps q
assign_other r q x maps other = rw (nat_beq_ne r q (λ same. other (sym same))) refl

-- A map that no container has may change.
values_assign :
    (r : ℕ) (x : GoMap String String) (maps : Maps) (m : GoMap String ResponsesRef)
    → Lacks r m
    → map_values (container_of (assign r x maps)) m ≡ map_values (container_of maps) m
values_assign r x maps [] lacks = refl
values_assign r x maps ((k, c) ∷ m) lacks =
    let this = assign_other r c.payload x maps lacks.0 in
    let rest = values_assign r x maps m lacks.1 in cc

-- A change of the map of a container is one of that container.
values_write :
    (id : String) (c : ResponsesRef) (x : GoMap String String) (maps : Maps)
    (m : GoMap String ResponsesRef)
    → Apart m
    → lookup id m ≡ some c
    → map_values (container_of (assign c.payload x maps)) m
      ≡ insert id (record { payload = x; added_at = c.added_at }) (map_values (container_of maps) m)
unfolding lookup insert
values_write id c x maps [] apart found = cc
values_write id c x maps ((k, d) ∷ m) apart found = elim (Bool-cases (k == id)) [
  | inl same ↦
      let it : d ≡ c = cc (rw same at found) in
      let key = (string_eq.beq_iff k id).0 same in
      let this = assign_same c.payload x maps in
      let rest =
        values_assign c.payload x maps m
          (subst (λ (o : ResponsesRef). Lacks o.payload m) it apart.0) in
      rw same cc
  | inr other ↦
      let tail = rw other at found in
      let lacks =
        lookup-All (λ (entry : String × ResponsesRef). entry.1.payload ≢ d.payload) id c m tail
          apart.0 in
      let this = assign_other c.payload d.payload x maps (λ q. lacks (sym q)) in
      let rest = values_write id c x maps m apart.1 tail in rw other cc
]

-- The store of the values.
abbrev pub view : RefStore → Store
view s = record {
  payloads = s.payloads;
  forkchoices = map_values (container_of s.maps) s.forkchoices;
}

-- What SetForkchoiceResponse has after its first part: a container with a map of its own.
record IsMade (now : ℕ) (id : String) (s s' : RefStore) : Type 0 where
  owned : IsOwned s'
  container : (c : ResponsesRef) × (lookup id s'.forkchoices ≡ some c)
  same : view s' ≡ record (view s) { forkchoices = make_container now id (view s).forkchoices }

make_response_map-IsMade :
    (now : ℕ) (id : String) (s : RefStore)
    → IsOwned s
    → IsMade now id s (make_response_map now id s)
unfolding make_response_map
make_response_map-IsMade now id s o = elim (Option-cases (lookup id s.forkchoices)) [
  | inl absent ↦
      let c : ResponsesRef = record { payload = s.made; added_at = now } in
      let lacks = below-Lacks s.made s.forkchoices o.below in
      let gone =
        lookup-map_values (container_of s.maps) id s.forkchoices
        ∙ ap (map_option (container_of s.maps)) absent in
      let step = make_container_new now id (view s).forkchoices gone in
      let values = values_assign s.made [] s.maps s.forkchoices lacks in
      let new = assign_same s.made [] s.maps in
      let inserted =
        insert-map_values (container_of (assign s.made [] s.maps)) id c s.forkchoices in
      rw (absent, make_response_map)
        record {
          owned = record {
            apart = Apart-insert id c s.forkchoices lacks o.apart;
            below =
                All-insert (λ (entry : String × ResponsesRef). entry.1.payload < suc s.made) id c
                  s.forkchoices (omega arith) (below-suc s.made s.forkchoices o.below);
          };
          container = (c, lookup-insert_self id c s.forkchoices);
          same =
              ap (λ f. record (view s) { forkchoices = f })
                (sym inserted
                  ∙ ap
                      (λ m.
                        insert id (record { payload = m; added_at = now })
                          (map_values (container_of (assign s.made [] s.maps)) s.forkchoices))
                      new
                  ∙ ap (insert id (new_forkchoice_response_container now)) values
                  ∙ sym step);
        }
  | inr (c, found) ↦
      let there =
        lookup-map_values (container_of s.maps) id s.forkchoices
        ∙ ap (map_option (container_of s.maps)) found in
      let step = make_container_found now id (view s).forkchoices (container_of s.maps c) there in
      rw (found, make_response_map) record { owned = o; container = (c, found); same = cc }
]

write_response_map-view :
    (id url rid : String) (s : RefStore) (c : ResponsesRef)
    → IsOwned s
    → lookup id s.forkchoices ≡ some c
    → write_response id url rid (view s).forkchoices
      ≡ some (view (write_response_map id url rid s)).forkchoices
unfolding write_response_map
write_response_map-view id url rid s c o found =
    let there =
      lookup-map_values (container_of s.maps) id s.forkchoices
      ∙ ap (map_option (container_of s.maps)) found in
    let written =
      values_write id c (insert url rid (s.maps c.payload)) s.maps s.forkchoices o.apart found in
    rw (found, write_response_map)
      (write_response-some id url rid (view s).forkchoices (container_of s.maps c) there
        ∙ ap some (sym written))

write_response_map-IsOwned :
    (id url rid : String) (s : RefStore) → IsOwned s → IsOwned (write_response_map id url rid s)
unfolding write_response_map
write_response_map-IsOwned id url rid s o = elim (Option-cases (lookup id s.forkchoices)) [
  | inl absent ↦ rw (absent, write_response_map) o
  | inr (c, found) ↦ rw (found, write_response_map) (record { apart = o.apart; below = o.below })
]

write_response_map-payloads :
    (id url rid : String) (s : RefStore) → (write_response_map id url rid s).payloads ≡ s.payloads
unfolding write_response_map
write_response_map-payloads id url rid s = elim (Option-cases (lookup id s.forkchoices)) [
  | inl absent ↦ rw (absent, write_response_map) refl
  | inr (c, found) ↦ rw (found, write_response_map) refl
]

store_path : (s t : Store) → s.payloads ≡ t.payloads → s.forkchoices ≡ t.forkchoices → s ≡ t
store_path s t p f = cc

-- SetForkchoiceResponse sees one map only.
set_forkchoice_response-parts :
    (now : ℕ) (id url rid : String) (s : Store)
    → ((set_forkchoice_response now id url rid s).payloads ≡ s.payloads)
      × ((set_forkchoice_response now id url rid s).forkchoices
          ≡ (set_forkchoice_response now id url rid (responses_store s.forkchoices)).forkchoices)
unfolding set_forkchoice_response
set_forkchoice_response-parts now id url rid s = (refl, refl)

pub set_response_map-view :
    (now : ℕ) (id url rid : String) (s : RefStore)
    → IsOwned s
    → IsOwned (set_response_map now id url rid s)
      × (view (set_response_map now id url rid s) ≡ set_forkchoice_response now id url rid (view s))
unfolding set_response_map
set_response_map-view now id url rid s o =
    let s' = make_response_map now id s in
    let made = make_response_map-IsMade now id s o in
    let (c, found) = made.container in
    let both = write_response-make_container now id url rid (view s).forkchoices in
    let written = write_response_map-view id url rid s' c made.owned found in
    let same = ap (λ (t : Store). write_response id url rid t.forkchoices) made.same in
    let payloads =
      write_response_map-payloads id url rid s' ∙ ap (λ (t : Store). t.payloads) made.same in
    let parts = set_forkchoice_response-parts now id url rid (view s) in
    (
      write_response_map-IsOwned id url rid s' made.owned,
      store_path (view (set_response_map now id url rid s))
          (set_forkchoice_response now id url rid (view s)) (payloads ∙ sym parts.0) cc,
    )
