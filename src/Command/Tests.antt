-- ===== src/Command/Tests.antt =====
-- Runs of the command, over the server of the router's tests.
use mev_boost.Common.{◌≡◌, refl, none, some, List, [], ◌∷◌, map, All}
use mev_boost.Router.Tests.{map_library, map_library_laws}
use mev_boost.Command.{main, relay_option, flag_value, default_port}
use mev_boost.Command.Entries.{parse_relay_urls}
use mev_boost.Command.Entries.Split.{join}
use mev_boost.Command.Entries.RoundTrip.{Entry, written, IsPlain, parse_relay_urls-join}
use mev_boost.Command.Main.{Started, main_lem}

-- " a,b  ".
abbrev two_entries : List Entry
two_entries =
    record { before = 1; url = "a"; after = 0 } ∷ record { before = 0; url = "b"; after = 2 } ∷ []

abbrev two_entries-plain : All IsPlain two_entries
two_entries-plain = (
  record { comma = refl; trimmed = record { first = refl; last = refl } },
  (record { comma = refl; trimmed = record { first = refl; last = refl } }, tt),
)

parse_relay_urls-join_example : parse_relay_urls (join (map written two_entries)) ≡ "a" ∷ "b" ∷ []
parse_relay_urls-join_example = parse_relay_urls-join two_entries (λ h. cc h) two_entries-plain

main_lem_example :
    (entries : List Entry) × All IsPlain entries
    × (join (map written entries) ≡ relay_option (λ key. some "a, b") none)
    × Started map_library map_library_laws
        (flag_value none default_port)
        entries
        (main map_library (λ key. some "a, b") none none)
main_lem_example = main_lem map_library map_library_laws (λ key. some "a, b") none none
