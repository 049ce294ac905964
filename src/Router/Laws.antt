-- ===== src/Router/Laws.antt =====
-- What the router serves.
use mev_boost.Common.{
  ◌≡◌, ◌≢◌, refl, ◌∙◌, ◌⊎◌, inl, inr, String, Option, some, List, [], ◌∷◌, false, ◌==◌, string_eq,
  Bool-cases,
}
use mev_boost.Common.Map.{GoMap, contains, keys}
use mev_boost.Rpc.{done, failed}
use mev_boost.Service.{RelayService, new_relay_service}
use mev_boost.Router.{RpcLibrary, codec_server, new_router}

-- What is relied on in the libraries: `services` are the services of a server by their names, and
-- `handler` is what a router serves at a path.
pub record RpcLaws {Codec Server Router : Type 0} (lib : RpcLibrary Codec Server Router)
    : Type 0 where
  pub services : Server → GoMap String RelayService
  pub handler : String → Router → Option Server
  pub services-new_server : services lib.new_server ≡ []
  pub services-register_codec :
      (c : Codec) (content_type : String) (s : Server)
      → services (lib.register_codec c content_type s) ≡ services s
  -- A relay service has methods that can be registered; under a name that is not taken, it is.
  pub register_service-done :
      (relay : RelayService) (name : String) (s : Server)
      → name ≢ ""
      → contains name (keys (services s)) ≡ false
      → (s' : Server) × (lib.register_service relay name s ≡ done s')
        × (services s' ≡ (name, relay) ∷ services s)
  pub handler-handle :
      (path : String) (s : Server) (r : Router) → handler path (lib.handle path s r) ≡ some s

-- The services that `NewRouter` registers, the youngest first.
abbrev pub three_services : RelayService → GoMap String RelayService
three_services relay = ("relay", relay) ∷ ("builder", relay) ∷ ("engine", relay) ∷ []

module _ {Codec Server Router : Type 0} (lib : RpcLibrary Codec Server Router) where
  -- What a router for one relay service serves at "/".
  pub record Serves (laws : RpcLaws lib) (relay : RelayService) (r : Router) : Type 0 where
    pub server : Server
    pub handled : laws.handler "/" r ≡ some server
    pub all : laws.services server ≡ three_services relay

  codec_server-services : (laws : RpcLaws lib) → laws.services (codec_server lib) ≡ []
  unfolding codec_server
  codec_server-services laws =
      laws.services-register_codec _ _ _
      ∙ laws.services-register_codec _ _ _
      ∙ laws.services-new_server

  -- `NewRouter` fails with the error for missing urls where there is no url or the first one is
  -- empty; the others are not looked at. Else it returns a router that serves one relay service,
  -- with all the urls, under the three names, and no other one. It is assumed that the libraries
  -- register a relay service under any name that is not taken, and serve what is handed to them.
  pub new_router_lem :
      (laws : RpcLaws lib) (url : String) (urls : List String)
      → (new_router lib [] ≡ failed "no relayURLs")
        × (new_router lib ("" ∷ urls) ≡ failed "no relayURLs")
        × ((url ≡ "")
            ⊎ ((url ≢ "")
                × (r : Router) × (new_router lib (url ∷ urls) ≡ done r)
                × Serves laws (record { relay_urls = url ∷ urls }) r))
  unfolding new_router new_relay_service contains keys
  new_router_lem laws url urls = elim (Bool-cases (url == "")) [
    | inl empty ↦ (refl, refl, inl ((string_eq.beq_iff url "").0 empty))
    | inr first ↦
        let relay : RelayService = record { relay_urls = url ∷ urls } in
        let (engine, has_engine, one) =
          laws.register_service-done relay "engine" (codec_server lib) (λ h. cc h)
            (rw (codec_server-services laws) refl) in
        let (builder, has_builder, two) =
          laws.register_service-done relay "builder" engine (λ h. cc h)
            (rw (one, codec_server-services laws) refl) in
        let (server, has_relay, three) =
          laws.register_service-done relay "relay" builder (λ h. cc h)
            (rw (two, one, codec_server-services laws) refl) in
        (
          refl,
          refl,
          inr (
            λ h. cc ((string_eq.beq_iff url "").1 h, first),
            lib.handle "/" server lib.new_mux,
            rw (first, new_router) (rw (has_engine, has_builder, has_relay) refl),
            record {
              server = server;
              handled = laws.handler-handle "/" server lib.new_mux;
              all = rw (three, two, one, codec_server-services laws) refl;
            },
          ),
        )
  ]
