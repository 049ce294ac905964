-- ===== src/Service/Header/Root.antt =====
-- Accepting a payload, by what `TransactionsRoot` returns for its transactions.
use mev_boost.Common.{ℕ, ◌≡◌, refl, ap, ◌∙◌, String, none, some, List, true}
use mev_boost.Types.{Hash, ExecutionPayloadWithTxRootV1}
use mev_boost.Store.Interface.{StoreOps}
use mev_boost.Txroot.Result.{Result, ok, over_limit, panic, out_of_fuel}
use mev_boost.Txroot.Root.{transactions_root}
use mev_boost.Txroot.Merkle.Termination.{finishes}
use mev_boost.Service.{Env, returned, panicked}
use mev_boost.Service.Header.{byte_txs, check_root, with_root, on_transactions, accept}

module _ {Raw S : Type 0} (env : Env Raw) (ops : StoreOps S) (now : ℕ)
    (p : ExecutionPayloadWithTxRootV1) (s : S) where
  with_root-ok :
      (r : Result Hash) (ends : finishes r ≡ true) (root : Hash)
      → r ≡ ok root
      → with_root env ops now p s r ends
        ≡ returned (check_root env ops now p (env.bytes_to_hash root) s)
  unfolding with_root
  with_root-ok (ok a) ends root e = let same : a ≡ root = cc e in rw same refl
  with_root-ok over_limit ends root e = absurd (cc e)
  with_root-ok panic ends root e = absurd (cc e)
  with_root-ok out_of_fuel ends root e = absurd (cc e)

  with_root-over_limit :
      (r : Result Hash) (ends : finishes r ≡ true)
      → r ≡ over_limit
      → with_root env ops now p s r ends ≡ returned (s, p)
  unfolding with_root
  with_root-over_limit (ok a) ends e = absurd (cc e)
  with_root-over_limit over_limit ends e = refl
  with_root-over_limit panic ends e = absurd (cc e)
  with_root-over_limit out_of_fuel ends e = absurd (cc e)

  with_root-panic :
      (r : Result Hash) (ends : finishes r ≡ true)
      → r ≡ panic
      → with_root env ops now p s r ends ≡ panicked
  unfolding with_root
  with_root-panic (ok a) ends e = absurd (cc e)
  with_root-panic over_limit ends e = absurd (cc e)
  with_root-panic panic ends e = refl
  with_root-panic out_of_fuel ends e = absurd (cc e)

  pub accept-none : p.transactions ≡ none → accept env ops now p s ≡ returned (s, p)
  unfolding accept on_transactions
  accept-none no_txs = ap (on_transactions env ops now p s) no_txs

  module _ (txs : List String) (has_txs : p.transactions ≡ some txs) where
    pub accept-ok :
        (root : Hash)
        → transactions_root env.sha256 (byte_txs env txs) ≡ ok root
        → accept env ops now p s ≡ returned (check_root env ops now p (env.bytes_to_hash root) s)
    unfolding accept on_transactions
    accept-ok root computed =
        ap (on_transactions env ops now p s) has_txs ∙ with_root-ok _ _ root computed

    pub accept-over_limit :
        transactions_root env.sha256 (byte_txs env txs) ≡ over_limit
        → accept env ops now p s ≡ returned (s, p)
    unfolding accept on_transactions
    accept-over_limit over =
        ap (on_transactions env ops now p s) has_txs ∙ with_root-over_limit _ _ over

    pub accept-panic :
        transactions_root env.sha256 (byte_txs env txs) ≡ panic → accept env ops now p s ≡ panicked
    unfolding accept on_transactions
    accept-panic crash = ap (on_transactions env ops now p s) has_txs ∙ with_root-panic _ _ crash
