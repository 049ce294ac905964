-- ===== src/Store/References/Tests.antt =====
-- Calls of the store with references at concrete inputs.
use mev_boost.Common.{◌*◌, ◌≡◌, refl, some, List, [], ◌∷◌, string_eq}
use mev_boost.Common.Map.{lookup, insert}
use mev_boost.Store.{new_store, second}
use mev_boost.Store.Abstract.{Request, get_responses, set_response, clean, serve, run}
use mev_boost.Store.References.{
  new_ref_store, get_response_map, serve_refs, set_response_map, make_response_map,
  write_response_map,
}
use mev_boost.Store.References.View.{view}
use mev_boost.Store.References.Refines.{served_by_reference}
use mev_boost.Store.References.HandedOut.{handed_out}

-- A response is set, and asked for.
abbrev asked : List Request
asked = set_response 0 "7" "a" "1" ∷ get_responses "7" ∷ []

-- Then one for another id comes, and a cleanup takes both ids away.
abbrev later : List Request
later = set_response 1 "8" "b" "2" ∷ clean (1000 * second) ∷ []

served_by_reference_example :
    ((run serve_refs asked new_ref_store).0 ≡ (run serve asked new_store).0)
    × (view (run serve_refs asked new_ref_store).1 ≡ (run serve asked new_store).1)
served_by_reference_example = served_by_reference asked

given : get_response_map "7" (run serve_refs asked new_ref_store).1 ≡ some 0
unfolding get_response_map serve_refs set_response_map make_response_map write_response_map lookup
    insert
given = refl

handed_out_example :
    (run serve_refs later (run serve_refs asked new_ref_store).1).1.maps 0
    ≡ (run serve_refs asked new_ref_store).1.maps 0
handed_out_example = handed_out asked later "7" 0 given refl
