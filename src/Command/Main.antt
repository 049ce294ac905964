-- ===== src/Command/Main.antt =====
-- What the command does with its options.
use mev_boost.Common.{◌≡◌, ◌≢◌, refl, ap, inl, inr, String, Option, List, [], ◌∷◌, map, All}
use mev_boost.Common.Int.{ℤ}
use mev_boost.Router.{RpcLibrary, new_router}
use mev_boost.Router.Laws.{RpcLaws, Serves, new_router_lem}
use mev_boost.Command.{Exit, panics, serves, main, flag_value, default_port, relay_option, listen}
use mev_boost.Command.Entries.Split.{join}
use mev_boost.Command.Entries.RoundTrip.{Entry, written, IsPlain, parse_relay_urls-entries}

abbrev pub urls_of : List Entry → List String
urls_of entries = map (λ (entry : Entry). entry.url) entries

module _ {Codec Server Router : Type 0} (lib : RpcLibrary Codec Server Router)
    (laws : RpcLaws lib) where
  -- How the command goes on with a list of entries.
  pub data Started (port : ℤ) : List Entry → Exit Router → Type 0 where
    refuses :
        {entry : Entry} {entries : List Entry}
        → entry.url ≡ ""
        → Started port (entry ∷ entries) (panics "no relayURLs")
    serves_all :
        {entry : Entry} {entries : List Entry} (r : Router)
        → entry.url ≢ ""
        → Serves lib laws (record { relay_urls = urls_of (entry ∷ entries) }) r
        → Started port (entry ∷ entries) (serves port r)

  started :
      (port : ℤ) (entries : List Entry)
      → entries ≢ []
      → Started port entries (listen port (new_router lib (urls_of entries)))
  started port [] some_entry = absurd (some_entry refl)
  started port (entry ∷ entries) some_entry =
      let (none_given, first_empty, ends) = new_router_lem lib laws entry.url (urls_of entries) in
      elim ends [
        | inl empty ↦
            rw (ap (λ url. new_router lib (url ∷ urls_of entries)) empty, first_empty)
              (refuses empty)
        | inr (given, r, made, served) ↦ rw made (serves_all r given served)
      ]

  -- Whatever the environment and the command line hold, the option for the relays is a
  -- comma-separated list of at least one entry, and the command serves, on its port, one relay
  -- service with the entries' urls under the three names, or it panics with the error for
  -- missing urls, which it does exactly where the first entry is blank. It is assumed that the libraries
  -- register a relay service under any name that is not taken, and serve what is handed to them.
  pub main_lem :
      (lookup_env : String → Option String) (port_flag : Option ℤ) (relay_flag : Option String)
      → (entries : List Entry) × All IsPlain entries
        × (join (map written entries) ≡ relay_option lookup_env relay_flag)
        × Started
            (flag_value port_flag default_port)
            entries
            (main lib lookup_env port_flag relay_flag)
  unfolding main
  main_lem lookup_env port_flag relay_flag =
      let (entries, some_entry, plain, same, urls) =
        parse_relay_urls-entries (relay_option lookup_env relay_flag) in
      (
        entries,
        plain,
        same,
        rw urls (started (flag_value port_flag default_port) entries some_entry),
      )
