-- ===== src/Router.antt =====
-- lib/router.go: the router, which serves the relay service under three names. The libraries
-- github.com/gorilla/rpc and github.com/gorilla/mux are the parameter `RpcLibrary`.
use mev_boost.Common.{ℕ, String, Option, none, some, List, [], ◌∷◌}
use mev_boost.Rpc.{Try, done, failed}
use mev_boost.Service.{RelayService, new_relay_service}
pub mod Laws
pub mod Tests

-- rpc.NewServer, json.NewCodec, RegisterCodec, RegisterService, mux.NewRouter and Handle. A server
-- and a router are changed in place; `register_service` returns the changed server or an error.
pub record RpcLibrary (Codec Server Router : Type 0) : Type 0 where
  pub new_server : Server
  pub new_codec : Codec
  pub register_codec : Codec → String → Server → Server
  pub register_service : RelayService → String → Server → Try Server
  pub new_mux : Router
  pub handle : String → Server → Router → Router

-- if err != nil { return nil, err }
infixl 5 ◌>>=◌
abbrev pub ◌>>=◌ : {A B : Type 0} → Try A → (A → Try B) → Try B
done a >>= f = f a
failed e >>= f = failed e

-- The pair of `newRelayService`, whose one error this is.
abbrev pub or_error : Option RelayService → Try RelayService
or_error none = failed "no relayURLs"
or_error (some relay) = done relay

module _ {Codec Server Router : Type 0} (lib : RpcLibrary Codec Server Router) where
  -- The server with its two codecs, before any service.
  unfoldable pub codec_server : Server
  codec_server =
      let rpc_server = lib.register_codec lib.new_codec "application/json" lib.new_server in
      lib.register_codec lib.new_codec "application/json;charset=UTF-8" rpc_server

  unfoldable pub new_router : List String → Try Router
  new_router relay_urls = or_error (new_relay_service relay_urls) >>= λ relay.
      lib.register_service relay "engine" codec_server >>= λ engine.
      lib.register_service relay "builder" engine >>= λ builder.
      lib.register_service relay "relay" builder >>= λ rpc_server.
      done (lib.handle "/" rpc_server lib.new_mux)
