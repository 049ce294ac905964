-- ===== src/Command/Entries.antt =====
-- The comma-separated list of cmd/mev-boost/main.go: strings.Split(s, ",") and strings.Trim(s, " ").
use Prim.Native.Char.{Char, code}
use Prim.Native.String
use mev_boost.Common.{String, List, [], ◌∷◌, map, Bool, nat_beq, if◌then◌else◌}
pub mod Split
pub mod Trim
pub mod RoundTrip

-- The separator ',' and the cut character ' '.
abbrev pub is_comma : Char → Bool
is_comma c = nat_beq (code c) 44

abbrev pub is_space : Char → Bool
is_space c = nat_beq (code c) 32

-- A character in front of the first part.
unfoldable pub extend_first : Char → List String → List String
extend_first c [] = String.◌∷◌ c "" ∷ []
extend_first c (part ∷ parts) = String.◌∷◌ c part ∷ parts

unfoldable pub split : String → List String
split String.[] = "" ∷ []
split (String.◌∷◌ c s) =
    let parts = split s in if is_comma c then "" ∷ parts else extend_first c parts

unfoldable pub trim_left : String → String
trim_left String.[] = ""
trim_left (String.◌∷◌ c s) = let rest = trim_left s in if is_space c then rest else String.◌∷◌ c s

-- A space at the end is cut.
abbrev pub cut_space : Char → String → String
cut_space c String.[] = if is_space c then "" else String.◌∷◌ c ""
cut_space c (String.◌∷◌ d s) = String.◌∷◌ c (String.◌∷◌ d s)

unfoldable pub trim_right : String → String
trim_right String.[] = ""
trim_right (String.◌∷◌ c s) = cut_space c (trim_right s)

unfoldable pub trim : String → String
trim s = trim_right (trim_left s)

-- The loop of `main` over the entries.
unfoldable pub parse_relay_urls : String → List String
parse_relay_urls s = map trim (split s)
