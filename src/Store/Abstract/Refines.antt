-- ===== src/Store/Abstract/Refines.antt =====
-- The store of lib/store.go does what the interface promises.
use mev_boost.Common.{
  ℕ, ◌≡◌, refl, ap, ◌∙◌, inl, inr, String, Option, none, some, List, [], ◌∷◌, Bool, ◌==◌,
  if◌then◌else◌, bytes_eq, string_eq, Option-cases, Bool-cases,
}
use mev_boost.Common.Map.{lookup, insert, lookup-insert}
use mev_boost.Types.{Hash}
use mev_boost.Store.{
  Store, ExecutionPayloadContainer, ForkchoiceResponseContainer, is_expired, get_execution_payload,
  container_or_new, set_execution_payload, get_forkchoice_response, set_forkchoice_response,
}
use mev_boost.Store.Cleanup.{unless, lookup-cleanup_payloads, lookup-cleanup_forkchoices}
use mev_boost.Store.Abstract.{
  Responses, Contents, responses_of, map_option, contents, Request, get_payload, set_payload,
  get_responses, set_response, clean, Returned, nothing, payload, responses, serve, with_response,
  specified, run,
}

-- Contents are equal where both functions are.
pub Contents-path :
    (t u : Contents)
    → ((k : Hash) → t.payloads k ≡ u.payloads k)
    → ((id : String) → t.forkchoices id ≡ u.forkchoices id)
    → t ≡ u
Contents-path t u ps fs = λ i. record { payloads = λ k. ps k i; forkchoices = λ id. fs id i }

pub Responses-path :
    (c d : Responses) → ((url : String) → c.ids url ≡ d.ids url) → c.added_at ≡ d.added_at → c ≡ d
Responses-path c d ids e = λ i. record { ids = λ url. ids url i; added_at = e i }

map_option-unless :
    (too_old : ℕ → Bool) (o : Option ForkchoiceResponseContainer)
    → map_option responses_of (unless (λ c. too_old c.added_at) o)
      ≡ unless (λ (c : Responses). too_old c.added_at) (map_option responses_of o)
map_option-unless too_old none = refl
map_option-unless too_old (some c) = elim (Bool-cases (too_old c.added_at)) [
  | inl old ↦ rw old refl
  | inr young ↦ rw young refl
]

with_response-container :
    (now : ℕ) (url relay_id : String) (o : Option ForkchoiceResponseContainer)
    → responses_of (record (container_or_new now o) {
      payload = insert url relay_id (container_or_new now o).payload;
    })
      ≡ with_response now url relay_id (map_option responses_of o)
unfolding lookup
with_response-container now url relay_id none =
    Responses-path _ _ (λ u. lookup-insert url u relay_id []) refl
with_response-container now url relay_id (some c) =
    Responses-path _ _ (λ u. lookup-insert url u relay_id c.payload) refl

get_payload-contents :
    (k : Hash) (s : Store)
    → get_execution_payload k s
      ≡ map_option (λ (c : ExecutionPayloadContainer). c.payload) (lookup k s.payloads)
unfolding get_execution_payload
get_payload-contents k s = elim (Option-cases (lookup k s.payloads)) [
  | inl absent ↦ rw (absent, get_execution_payload) refl
  | inr (c, found) ↦ rw (found, get_execution_payload) refl
]

get_responses-contents :
    (id : String) (s : Store)
    → map_option (λ m url. lookup url m) (get_forkchoice_response id s)
      ≡ map_option (λ (c : Responses). c.ids) (map_option responses_of (lookup id s.forkchoices))
unfolding get_forkchoice_response
get_responses-contents id s = elim (Option-cases (lookup id s.forkchoices)) [
  | inl absent ↦ rw (absent, get_forkchoice_response) refl
  | inr (c, found) ↦ rw (found, get_forkchoice_response) refl
]

set_response-contents :
    (now : ℕ) (id url relay_id j : String) (s : Store)
    → map_option responses_of (lookup j (set_forkchoice_response now id url relay_id s).forkchoices)
      ≡ (if id == j
          then some
              (with_response now url relay_id (map_option responses_of (lookup id s.forkchoices)))
          else map_option responses_of (lookup j s.forkchoices))
unfolding set_forkchoice_response
set_response-contents now id url relay_id j s =
    let old = lookup id s.forkchoices in
    let written = ap (map_option responses_of) (
      lookup-insert id j
        (record (container_or_new now old) {
          payload = insert url relay_id (container_or_new now old).payload;
        })
        s.forkchoices) in
    elim (Bool-cases (id == j)) [
      | inl same ↦ written ∙ rw same (ap some (with_response-container now url relay_id old))
      | inr other ↦ written ∙ rw other refl
    ]

serve-specified :
    (request : Request) (s : Store)
    → ((contents (serve request s).0, (serve request s).1) ≡ specified request (contents s))
unfolding serve specified contents set_execution_payload set_forkchoice_response
serve-specified (get_payload k) s = ap (λ o. (contents s, payload o)) (get_payload-contents k s)
serve-specified (set_payload now k none) s = refl
serve-specified (set_payload now k (some p)) s =
    ap (λ t. (t, nothing)) (Contents-path _ _ (λ j. lookup-insert k j _ s.payloads) (λ id. refl))
serve-specified (get_responses id) s =
    ap (λ o. (contents s, responses o)) (get_responses-contents id s)
serve-specified (set_response now id url relay_id) s =
    ap (λ t. (t, nothing))
      (Contents-path _ _ (λ k. refl) (λ j. set_response-contents now id url relay_id j s))
serve-specified (clean now) s =
    ap (λ t. (t, nothing))
      (Contents-path _ _ (λ k. lookup-cleanup_payloads now s k)
        (λ id.
          ap (map_option responses_of) (lookup-cleanup_forkchoices now s id)
          ∙ map_option-unless (is_expired now) (lookup id s.forkchoices)))

-- What a sequence of calls shows of a store: the replies, and the contents at the end.
unfoldable pub observed : List Request → Store → List Returned × Contents
observed requests s = ((run serve requests s).0, contents (run serve requests s).1)

-- For every sequence of calls, the store of lib/store.go returns what two partial functions return,
-- and ends with the contents that they end with: a write under a key replaces what one function
-- has there, a response joins those under its id and keeps their time, and a cleanup takes the
-- expired entries out of both functions.
pub observed-specified :
    (requests : List Request) (s : Store)
    → observed requests s ≡ run specified requests (contents s)
unfolding observed
observed-specified [] s = refl
observed-specified (request ∷ requests) s =
    let answer = serve request s in
    ap (λ (q : List Returned × Contents). (answer.1 ∷ q.0, q.1))
      (observed-specified requests answer.0)
    ∙ ap
        (λ (p : Contents × Returned).
          (p.1 ∷ (run specified requests p.0).0, (run specified requests p.0).1))
        (serve-specified request s)
