-- ===== src/Store/References/Refines.antt =====
-- The store with references serves every sequence of calls like the store whose maps are values.
use mev_boost.Common.{
  ℕ, ◌<◌, ◌≡◌, refl, sym, ap, ◌∙◌, Option, none, some, List, [], ◌∷◌, All, String, string_eq,
  nat_eq, bytes_eq,
}
use mev_boost.Common.Map.{GoMap, lookup, keys}
use mev_boost.Store.{
  ForkchoiceResponseContainer, new_store, get_execution_payload, set_execution_payload,
  get_forkchoice_response, is_expired, cleanup_loop, cleanup,
}
use mev_boost.Store.Abstract.{
  Request, get_payload, set_payload, get_responses, set_response, clean, serve, run, map_option,
  responses,
}
use mev_boost.Store.References.{
  ResponsesRef, RefStore, new_ref_store, get_response_map, serve_refs, container_of,
}
use mev_boost.Store.References.Values.{
  map_values, lookup-map_values, keys-map_values, cleanup_loop-map_values,
}
use mev_boost.Store.References.Owners.{Apart, IsOwned, Apart-delete, All-delete, cleanup_loop-keeps}
use mev_boost.Store.References.View.{view, set_response_map-view}

pub Apart-cleanup :
    (now : ℕ) (ks : List String) (m : GoMap String ResponsesRef)
    → Apart m
    → Apart (cleanup_loop (λ c. is_expired now c.added_at) ks m)
Apart-cleanup now ks m h =
    cleanup_loop-keeps (λ (c : ResponsesRef). is_expired now c.added_at) Apart Apart-delete ks m h

below-cleanup :
    (now n : ℕ) (ks : List String) (m : GoMap String ResponsesRef)
    → All (λ (entry : String × ResponsesRef). entry.1.payload < n) m
    → All
        (λ (entry : String × ResponsesRef). entry.1.payload < n)
        (cleanup_loop (λ c. is_expired now c.added_at) ks m)
below-cleanup now n ks m h =
    cleanup_loop-keeps (λ (c : ResponsesRef). is_expired now c.added_at)
      (All λ (entry : String × ResponsesRef). entry.1.payload < n) (All-delete _) ks m h

cleanup-view :
    (now : ℕ) (maps : ℕ → GoMap String String) (m : GoMap String ResponsesRef)
    → map_values (container_of maps) (cleanup_loop (λ c. is_expired now c.added_at) (keys m) m)
      ≡ cleanup_loop
          (λ c. is_expired now c.added_at)
          (keys (map_values (container_of maps) m))
          (map_values (container_of maps) m)
cleanup-view now maps m =
    sym (cleanup_loop-map_values (container_of maps) (λ c. is_expired now c.added_at) (keys m) m)
    ∙ ap
        (λ ks.
          cleanup_loop (λ (c : ForkchoiceResponseContainer). is_expired now c.added_at) ks
            (map_values (container_of maps) m))
        (sym (keys-map_values (container_of maps) m))

seen :
    (maps : ℕ → GoMap String String) (o : Option ResponsesRef)
    → map_option {B = String → Option String}
        (λ r url. lookup url (maps r))
        (map_option (λ c. c.payload) o)
      ≡ map_option
          (λ m url. lookup url m)
          (map_option
            (λ (c : ForkchoiceResponseContainer). c.payload)
            (map_option (container_of maps) o))
seen maps none = refl
seen maps (some c) = refl

responses-view :
    (id : String) (s : RefStore)
    → map_option {B = String → Option String}
        (λ r url. lookup url (s.maps r))
        (get_response_map id s)
      ≡ map_option (λ m url. lookup url m) (get_forkchoice_response id (view s))
unfolding get_response_map get_forkchoice_response
responses-view id s =
    seen s.maps (lookup id s.forkchoices)
    ∙ ap
        (λ o.
          map_option {B = String → Option String} (λ m url. lookup url m)
            (map_option (λ (c : ForkchoiceResponseContainer). c.payload) o))
        (sym (lookup-map_values (container_of s.maps) id s.forkchoices))

serve_refs-serve :
    (q : Request) (s : RefStore)
    → IsOwned s
    → IsOwned (serve_refs q s).0
      × (view (serve_refs q s).0 ≡ (serve q (view s)).0)
      × ((serve_refs q s).1 ≡ (serve q (view s)).1)
unfolding serve_refs serve get_execution_payload set_execution_payload cleanup
serve_refs-serve (get_payload k) s o = (o, refl, refl)
serve_refs-serve (set_payload now k none) s o =
    (record { apart = o.apart; below = o.below }, refl, refl)
serve_refs-serve (set_payload now k (some p)) s o =
    (record { apart = o.apart; below = o.below }, refl, refl)
serve_refs-serve (get_responses id) s o = (o, refl, ap responses (responses-view id s))
serve_refs-serve (set_response now id url rid) s o =
    let (owned, same) = set_response_map-view now id url rid s o in (owned, same, refl)
serve_refs-serve (clean now) s o = (
  record {
    apart = Apart-cleanup now (keys s.forkchoices) s.forkchoices o.apart;
    below = below-cleanup now s.made (keys s.forkchoices) s.forkchoices o.below;
  },
  ap
      (λ f. record {
        payloads = cleanup_loop (λ c. is_expired now c.added_at) (keys s.payloads) s.payloads;
        forkchoices = f;
      })
      (cleanup-view now s.maps s.forkchoices),
  refl,
)

run-serve_refs :
    (requests : List Request) (s : RefStore)
    → IsOwned s
    → ((run serve_refs requests s).0 ≡ (run serve requests (view s)).0)
      × (view (run serve_refs requests s).1 ≡ (run serve requests (view s)).1)
run-serve_refs [] s o = (refl, refl)
run-serve_refs (q ∷ requests) s o =
    let (owned, same, reply) = serve_refs-serve q s o in
    let rest = run-serve_refs requests (serve_refs q s).0 owned in
    let next = ap (run serve requests) same in (cc, cc)

pub run-IsOwned :
    (requests : List Request) (s : RefStore) → IsOwned s → IsOwned (run serve_refs requests s).1
run-IsOwned [] s o = o
run-IsOwned (q ∷ requests) s o = run-IsOwned requests (serve_refs q s).0 (serve_refs-serve q s o).0

pub new_ref_store-IsOwned : IsOwned new_ref_store
new_ref_store-IsOwned = record { apart = tt; below = tt }

-- From a new store on, the store whose containers hold references to their maps returns for every
-- sequence of calls what the store returns whose containers hold the maps, and ends with the same
-- contents.
pub served_by_reference :
    (requests : List Request)
    → ((run serve_refs requests new_ref_store).0 ≡ (run serve requests new_store).0)
      × (view (run serve_refs requests new_ref_store).1 ≡ (run serve requests new_store).1)
served_by_reference requests = run-serve_refs requests new_ref_store new_ref_store-IsOwned
