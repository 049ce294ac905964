-- ===== src/Command/Entries/RoundTrip.antt =====
-- The list that a user writes, with spaces around the urls, is read back.
use Prim.Native.String.{◌++◌}
use mev_boost.Common.{
  ℕ, zero, suc, ◌≡◌, ◌≢◌, refl, sym, ap, ◌∙◌, String, List, [], ◌∷◌, map, false, arith, All,
}
use mev_boost.Command.Entries.{split, trim, parse_relay_urls}
use mev_boost.Command.Entries.Split.{join, has_comma, IsSplit, split-join, join-split, split-ne}
use mev_boost.Command.Entries.Trim.{spaces, IsTrimmed, trim-spaces, trim_lem}
use Prim.Native.String.append.{nil, cons}

-- A url with the spaces around it.
pub record Entry : Type 0 where
  pub before : ℕ
  pub url : String
  pub after : ℕ

abbrev pub written : Entry → String
written entry = spaces entry.before ++ (entry.url ++ spaces entry.after)

-- A url that has no comma and no space at its ends.
pub record IsPlain (entry : Entry) : Type 0 where
  pub comma : has_comma entry.url ≡ false
  pub trimmed : IsTrimmed entry.url

has_comma-append :
    (s t : String) → has_comma s ≡ false → has_comma t ≡ false → has_comma (s ++ t) ≡ false
has_comma-append String.[] t hs ht = rw (nil t) ht
has_comma-append (String.◌∷◌ c s) t hs ht =
    rw (cons c s t) (ground (arith, has_comma-append s t (ground (arith, hs)) ht, hs))

has_comma-spaces : (n : ℕ) → has_comma (spaces n) ≡ false
has_comma-spaces zero = refl
has_comma-spaces (suc n) = has_comma-spaces n

written-IsSplit : (entries : List Entry) → All IsPlain entries → IsSplit (map written entries)
written-IsSplit [] plain = tt
written-IsSplit (entry ∷ entries) plain = (
  has_comma-append (spaces entry.before) (entry.url ++ spaces entry.after)
      (has_comma-spaces entry.before)
      (has_comma-append entry.url (spaces entry.after) plain.0.comma
        (has_comma-spaces entry.after)),
  written-IsSplit entries plain.1,
)

trimmed_urls :
    (entries : List Entry)
    → All IsPlain entries
    → map trim (map written entries) ≡ map (λ (entry : Entry). entry.url) entries
trimmed_urls [] plain = refl
trimmed_urls (entry ∷ entries) plain =
    rw (trim-spaces entry.before entry.after entry.url plain.0.trimmed)
      (ap (λ urls. entry.url ∷ urls) (trimmed_urls entries plain.1))

map-ne : (entries : List Entry) → entries ≢ [] → map written entries ≢ []
map-ne [] some_entry h = some_entry refl
map-ne (entry ∷ entries) some_entry h = cc h

-- The command reads the urls of a comma-separated list back, in their order, whatever spaces stand
-- around them. It is assumed that there is a url, and that the urls have no commas and neither
-- start nor end with a space.
pub parse_relay_urls-join :
    (entries : List Entry)
    → entries ≢ []
    → All IsPlain entries
    → parse_relay_urls (join (map written entries)) ≡ map (λ (entry : Entry). entry.url) entries
unfolding parse_relay_urls
parse_relay_urls-join entries some_entry plain =
    rw
      (split-join (map written entries) (map-ne entries some_entry) (written-IsSplit entries plain))
      (trimmed_urls entries plain)

has_comma-left : (s t : String) → has_comma (s ++ t) ≡ false → has_comma s ≡ false
has_comma-left String.[] t h = refl
has_comma-left (String.◌∷◌ c s) t h =
    let h' = rw (cons c s t) at h in ground (arith, has_comma-left s t (ground (arith, h')), h')

has_comma-right : (s t : String) → has_comma (s ++ t) ≡ false → has_comma t ≡ false
has_comma-right String.[] t h = rw (nil t) at h
has_comma-right (String.◌∷◌ c s) t h =
    let h' = rw (cons c s t) at h in has_comma-right s t (ground (arith, h'))

-- What the parts of a text are read as.
record Reading (parts : List String) : Type 0 where
  entries : List Entry
  as_written : map written entries ≡ parts
  plain : All IsPlain entries
  urls : map trim parts ≡ map (λ (entry : Entry). entry.url) entries

read_parts : (parts : List String) → IsSplit parts → Reading parts
read_parts [] whole = record { entries = []; as_written = refl; plain = tt; urls = refl }
read_parts (part ∷ parts) whole =
    let (n, m, same, trimmed) = trim_lem part in
    let rest = read_parts parts whole.1 in
    let silent : has_comma (spaces n ++ (trim part ++ spaces m)) ≡ false = rw (← same) whole.0 in
    record {
      entries = record { before = n; url = trim part; after = m } ∷ rest.entries;
      as_written = rw (rest.as_written, ← same) refl;
      plain = (
        record {
          comma =
              has_comma-left (trim part) (spaces m)
                (has_comma-right (spaces n) (trim part ++ spaces m) silent);
          trimmed = trimmed;
        },
        rest.plain,
      );
      urls = ap (λ urls. trim part ∷ urls) rest.urls;
    }

-- Every text of the option is such a list: it has at least one entry, and the command reads the
-- entries' urls, which have no commas and neither start nor end with a space.
pub parse_relay_urls-entries :
    (s : String)
    → (entries : List Entry) × (entries ≢ [])
      × All IsPlain entries
      × (join (map written entries) ≡ s)
      × (parse_relay_urls s ≡ map (λ (entry : Entry). entry.url) entries)
unfolding parse_relay_urls
parse_relay_urls-entries s =
    let (joined, whole) = join-split s in
    let reading = read_parts (split s) whole in
    (
      reading.entries,
      λ empty. split-ne s (sym reading.as_written ∙ ap (map written) empty),
      reading.plain,
      ap join reading.as_written ∙ joined,
      reading.urls,
    )
