-- ===== src/Router/Tests.antt =====
-- An instance of the libraries of lib/router.go: a server is the map of its services, and a router
-- is the map of its handlers.
use mev_boost.Common.{refl, String, [], ◌∷◌, string_eq, if◌then◌else◌}
use mev_boost.Common.Map.{GoMap, contains, keys, lookup, insert, lookup-insert_self}
use mev_boost.Rpc.{done, failed}
use mev_boost.Service.{RelayService}
use mev_boost.Router.{RpcLibrary}
use mev_boost.Router.Laws.{RpcLaws}

abbrev pub map_library :
    RpcLibrary Unit (GoMap String RelayService) (GoMap String (GoMap String RelayService))
map_library = record {
  new_server = [];
  new_codec = tt;
  register_codec = λ c t s. s;
  register_service = λ relay name s.
      if contains name (keys s) then failed "service already defined" else done ((name, relay) ∷ s);
  new_mux = [];
  handle = λ path s r. insert path s r;
}

pub map_library_laws : RpcLaws map_library
map_library_laws = record {
  services = λ s. s;
  handler = lookup;
  services-new_server = refl;
  services-register_codec = λ c t s. refl;
  register_service-done = λ relay name s given free. ((name, relay) ∷ s, rw free refl, refl);
  handler-handle = λ path s r. lookup-insert_self path s r;
}
