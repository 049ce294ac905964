-- ===== src/Service/System/Frozen/Waits.antt =====
-- `wg` of `ForkchoiceUpdatedV1`: it counts the goroutines, so the handler returns after the last.
use mathlib.Core.Path.{subst}
use mathlib.Core.List.{Perm, Memᴰ}
use mathlib.Core.List.Perm
use mev_boost.Common.{ℕ, zero, suc, ◌≡◌, refl, sym, String, List, [], ◌∷◌, Bool, arith, All, length}
use mev_boost.Common.Orders.{length-perm}
use mev_boost.Types.{Bytes}
use mev_boost.Store.Interface.{StoreOps}
use mev_boost.Service.{Env, RelayService}
use mev_boost.Service.System.Frozen.Ids.{IsWaited}
use mev_boost.Service.System.{
  Call, forkchoice_answered, Move, OneMoves, first, later, goroutine_runs, late_goroutine_runs,
  forkchoice_succeeds, forkchoice_fails, reply_comes, reply_crashes, header_succeeds, header_fails,
  relays_answer, relays_refuse, relays_crash,
}

none_left : (urls : List String) → length urls ≡ zero → urls ≡ []
none_left [] e = refl
none_left (url ∷ urls) e = absurd (omega (arith, e))

one_done :
    {urls rest : List String} {url : String} {wg : ℕ}
    → Perm urls (url ∷ rest)
    → length urls ≡ suc wg
    → length rest ≡ wg
one_done perm e = omega (arith, length-perm perm, e)

none_late :
    {A : Type 0} {urls rest : List String} {url : String} → Perm urls (url ∷ rest) → urls ≡ [] → A
none_late perm e = absurd (cc (Perm.eq-nil (Perm.symm (rw e at perm))))

module _ {Raw S : Type 0} (env : Env Raw) (ops : StoreOps S) (m : RelayService) where
  Move-IsWaited :
      {Request Response : Type 0} {s s' : S} {call call' : Call}
      → Move Request Response env ops m s call s' call'
      → IsWaited call
      → IsWaited call'
  Move-IsWaited (goroutine_runs http now args perm e) waited = one_done perm waited
  Move-IsWaited (late_goroutine_runs http now args valid valid' perm e) waited =
      none_late perm waited
  Move-IsWaited (forkchoice_succeeds {urls}) waited = none_left urls waited
  Move-IsWaited (forkchoice_fails {urls}) waited = none_left urls waited
  Move-IsWaited (reply_comes now reply e) waited = tt
  Move-IsWaited (reply_crashes now reply e) waited = tt
  Move-IsWaited (header_succeeds e) waited = tt
  Move-IsWaited (header_fails e) waited = tt
  Move-IsWaited (relays_answer replies e) waited = tt
  Move-IsWaited (relays_refuse replies e) waited = tt
  Move-IsWaited (relays_crash replies e) waited = tt

  pub OneMoves-IsWaited :
      {Request Response : Type 0} {s s' : S} {calls calls' : List Call}
      → OneMoves Request Response env ops m s calls s' calls'
      → All IsWaited calls
      → All IsWaited calls'
  OneMoves-IsWaited (first move) all = (Move-IsWaited move all.0, all.1)
  OneMoves-IsWaited (later move) all = (all.0, OneMoves-IsWaited move all.1)

pub no_goroutine_left :
    {id : Bytes} {success : Bool} {urls : List String} {calls : List Call}
    → All IsWaited calls
    → Memᴰ (forkchoice_answered id success urls) calls
    → urls ≡ []
no_goroutine_left all (Memᴰ.head e) = subst IsWaited (sym e) all.0
no_goroutine_left all (Memᴰ.tail m) = no_goroutine_left all.1 m
