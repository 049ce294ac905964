-- ===== src/Store/Cleanup.antt =====
-- `Cleanup`: exactly the entries that are older than `state_expiry` go.
use mev_boost.Common.{
  ℕ, ◌+◌, ◌*◌, ◌≤◌, ◌≡◌, ◌↔◌, refl, ap, ◌∙◌, ◌⊎◌, inr, map, String, Option, none, some, List, [],
  ◌∷◌, Bool, Eq, ◌==◌, if◌then◌else◌, arith, bytes_eq, string_eq,
}
use mev_boost.Common.Map.{GoMap, lookup, keys, contains, lookup-delete, lookup-of_not_key}
use mev_boost.Types.{Hash}
use mev_boost.Store.{
  Store, ExecutionPayloadContainer, ForkchoiceResponseContainer, second, is_expired, cleanup_entry,
  cleanup_loop, cleanup, visit, sweep, sweep_responses, cleanup_payloads, cleanup_responses,
}

-- What is left of an entry.
abbrev pub unless : {V : Type 0} → (V → Bool) → Option V → Option V
unless too_old none = none
unless too_old (some c) = if too_old c then none else some c

module _ {K V : Type 0} ⦃e : Eq K⦄ (too_old : V → Bool) where
  lookup-cleanup_entry :
      (k j : K) (m : GoMap K V)
      → lookup j (cleanup_entry too_old k m)
        ≡ (if k == j then unless too_old (lookup j m) else lookup j m)
  unfolding cleanup_entry
  lookup-cleanup_entry k j m = ground (arith, lookup-delete k j m, e.beq_iff k j)

  lookup-cleanup_loop :
      (ks : List K) (j : K) (m : GoMap K V)
      → lookup j (cleanup_loop too_old ks m)
        ≡ (if contains j ks then unless too_old (lookup j m) else lookup j m)
  unfolding cleanup_loop contains
  lookup-cleanup_loop [] j m = refl
  lookup-cleanup_loop (k ∷ ks) j m = ground (
    arith,
    lookup-cleanup_loop ks j (cleanup_entry too_old k m),
    lookup-cleanup_entry k j m,
    e.beq_iff k j,
  )

  pub lookup-cleanup_keys :
      (j : K) (m : GoMap K V)
      → lookup j (cleanup_loop too_old (keys m) m) ≡ unless too_old (lookup j m)
  lookup-cleanup_keys j m = ground (arith, lookup-cleanup_loop (keys m) j m, lookup-of_not_key j m)

-- A loop whose turns have their own times removes entries whole and changes none.
module _ {K V : Type 0} ⦃e : Eq K⦄ (added_at : V → ℕ) where
  lookup-visit :
      (v : K × ℕ) (j : K) (m : GoMap K V)
      → (lookup j (visit added_at v m) ≡ none) ⊎ (lookup j (visit added_at v m) ≡ lookup j m)
  unfolding visit
  lookup-visit v j m =
      ground (arith, lookup-cleanup_entry (λ c. is_expired v.1 (added_at c)) v.0 j m)

  pub lookup-sweep :
      (vs : List (K × ℕ)) (j : K) (m : GoMap K V)
      → (lookup j (sweep added_at vs m) ≡ none) ⊎ (lookup j (sweep added_at vs m) ≡ lookup j m)
  unfolding sweep
  lookup-sweep [] j m = inr refl
  lookup-sweep (v ∷ vs) j m =
      ground (arith, lookup-sweep vs j (visit added_at v m), lookup-visit v j m)

  -- With one time it is the loop of `cleanup`.
  pub sweep_at_once :
      (now : ℕ) (ks : List K) (m : GoMap K V)
      → sweep added_at (map (λ k. (k, now)) ks) m
        ≡ cleanup_loop (λ c. is_expired now (added_at c)) ks m
  unfolding sweep visit cleanup_loop
  sweep_at_once now [] m = refl
  sweep_at_once now (k ∷ ks) m = sweep_at_once now ks (visit added_at (k, now) m)

-- `cleanup` is its two parts, one after the other, if the clock stands still.
cleanup_parts :
    (now : ℕ) (s : Store)
    → cleanup_responses
        (map (λ k. (k, now)) (keys s.forkchoices))
        (cleanup_payloads (map (λ k. (k, now)) (keys s.payloads)) s)
      ≡ cleanup now s
unfolding cleanup cleanup_payloads cleanup_responses
cleanup_parts now s =
    let p = sweep_at_once (λ c. c.added_at) now (keys s.payloads) s.payloads in
    let f = sweep_at_once (λ c. c.added_at) now (keys s.forkchoices) s.forkchoices in
    ap
      (λ m. record s {
        payloads = m;
        forkchoices = sweep_responses (map (λ k. (k, now)) (keys s.forkchoices)) s.forkchoices;
      })
      p
    ∙ ap
        (λ m. record s {
          payloads = cleanup_loop (λ c. is_expired now c.added_at) (keys s.payloads) s.payloads;
          forkchoices = m;
        })
        f

pub lookup-cleanup_payloads :
    (now : ℕ) (s : Store) (k : Hash)
    → lookup k (cleanup now s).payloads
      ≡ unless (λ c. is_expired now c.added_at) (lookup k s.payloads)
unfolding cleanup
lookup-cleanup_payloads now s k = lookup-cleanup_keys (λ c. is_expired now c.added_at) k s.payloads

pub lookup-cleanup_forkchoices :
    (now : ℕ) (s : Store) (id : String)
    → lookup id (cleanup now s).forkchoices
      ≡ unless (λ c. is_expired now c.added_at) (lookup id s.forkchoices)
unfolding cleanup
lookup-cleanup_forkchoices now s id =
    lookup-cleanup_keys (λ c. is_expired now c.added_at) id s.forkchoices

-- After `Cleanup` at the time `now` the store holds an execution payload container exactly if it
-- held it before and the container was added at most 768 seconds before `now`, and the same holds
-- of the containers of forkchoice responses. Nothing else of either map changes.
pub cleanup_exact :
    (now : ℕ) (s : Store) (k : Hash) (c : ExecutionPayloadContainer) (id : String)
    (f : ForkchoiceResponseContainer)
    → ((lookup k (cleanup now s).payloads ≡ some c)
        ↔ ((lookup k s.payloads ≡ some c) × (now ≤ c.added_at + 768 * second)))
      × ((lookup id (cleanup now s).forkchoices ≡ some f)
          ↔ ((lookup id s.forkchoices ≡ some f) × (now ≤ f.added_at + 768 * second)))
unfolding is_expired
cleanup_exact now s k c id f = (
  (
    λ h. ground (arith, lookup-cleanup_payloads now s k),
    λ h. ground (arith, lookup-cleanup_payloads now s k),
  ),
  (
    λ h. ground (arith, lookup-cleanup_forkchoices now s id),
    λ h. ground (arith, lookup-cleanup_forkchoices now s id),
  ),
)
