-- ===== src/Command.antt =====
-- cmd/mev-boost/main.go: the command. What the environment and the command line hold is handed in;
-- the log, the seed and the store, which `main` only passes on, are left out.
use mev_boost.Common.{String, Option, none, some}
use mev_boost.Common.Int.{ℤ, pos}
use mev_boost.Rpc.{Try, done, failed}
use mev_boost.Router.{RpcLibrary, new_router}
use mev_boost.Command.Entries.{parse_relay_urls}
pub mod Entries
pub mod Main
mod Tests

-- os.LookupEnv is the parameter `lookup_env`.
unfoldable pub get_env : (String → Option String) → String → String → String
get_env lookup_env key default_value = elim (lookup_env key) [
  | some value ↦ value
  | none ↦ default_value
]

abbrev pub default_port : ℤ
default_port = pos 18550

abbrev pub default_relay_urls : (String → Option String) → String
default_relay_urls lookup_env = get_env lookup_env "RELAY_URLS" "http://127.0.0.1:28545"

-- The value of a flag: the one on the command line, or else the default.
abbrev pub flag_value : {A : Type 0} → Option A → A → A
flag_value none default = default
flag_value (some value) default = value

-- How `main` goes on: it panics with the router's error, or it serves the router on the port, until
-- the server fails.
pub data Exit (Router : Type 0) : Type 0 where
  panics : String → Exit Router
  serves : ℤ → Router → Exit Router

-- if err != nil { panic(err) }, and ListenAndServe
abbrev pub listen : {Router : Type 0} → ℤ → Try Router → Exit Router
listen port (failed err) = panics err
listen port (done router) = serves port router

-- What the flag -relayUrl holds after flag.Parse.
unfoldable pub relay_option : (String → Option String) → Option String → String
relay_option lookup_env relay_flag = flag_value relay_flag (default_relay_urls lookup_env)

module _ {Codec Server Router : Type 0} (lib : RpcLibrary Codec Server Router) where
  unfoldable pub main : (String → Option String) → Option ℤ → Option String → Exit Router
  main lookup_env port_flag relay_flag =
      listen (flag_value port_flag default_port)
        (new_router lib (parse_relay_urls (relay_option lookup_env relay_flag)))
