-- ===== src/Service/System/Frozen/Moves.antt =====
-- What one move of the service does to the responses under an id and to the ids in use.
use mathlib.Core.List.{Perm}
use mathlib.Core.List.Perm
use mev_boost.Common.{
  ℕ, zero, ◌≡◌, refl, sym, ap, ◌∙◌, ◌⊎◌, inl, inr, String, none, List, [], ◌∷◌, Bool, true, false,
  ◌==◌, string_eq, arith,
}
use mev_boost.Common.Map.{contains}
use mev_boost.Types.{Bytes, ExecutionPayloadWithTxRootV1}
use mev_boost.Store.Interface.{StoreOps, StoreLaws}
use mev_boost.Service.{Env, returned, RelayService}
use mev_boost.Rpc.{Http, Reply, Param}
use mev_boost.Service.Forkchoice.{goroutine}
use mev_boost.Service.Forkchoice.Replies.{verdict, verdict-cases}
use mev_boost.Service.Header.{process_reply}
use mev_boost.Service.Header.Writes.{process_reply_writes}
use mev_boost.Service.System.Frozen.Ids.{
  Shrinks, Shrinks-refl, Shrinks-with_id, Shrinks-drop, writes, any_writes, owns, contains-with_id,
}
use mev_boost.Service.System.{
  Call, forkchoice, forkchoice_answered, owned, ids_of, Move, OneMoves, first, later,
  goroutine_runs, late_goroutine_runs, forkchoice_succeeds, forkchoice_fails, reply_comes,
  reply_crashes, header_succeeds, header_fails, relays_answer, relays_refuse, relays_crash,
}

module _ {Raw S : Type 0} (env : Env Raw) (ops : StoreOps S) (laws : StoreLaws ops)
    (m : RelayService) where
  -- The responses under b stay, or are cleaned up.
  abbrev pub Kept : String → S → S → Type 0
  Kept b s s' =
      (ops.get_forkchoice_response b s' ≡ none)
      ⊎ (ops.get_forkchoice_response b s' ≡ ops.get_forkchoice_response b s)

  pub Kept-trans : (b : String) (s t u : S) → Kept b s t → Kept b t u → Kept b s u
  Kept-trans b s t u k (inl gone) = inl gone
  Kept-trans b s t u (inl gone) (inr same) = inl (same ∙ gone)
  Kept-trans b s t u (inr same) (inr same') = inr (same' ∙ same)

  goroutine-Kept :
      {Request Response : Type 0} (http : Http Raw Request Response) (now : String → ℕ)
      (boost_id : String) (args : List (Param Raw)) (url : String) (s s' : S) (valid valid' : Bool)
      (b : String)
      → goroutine http env ops now boost_id args url (s, valid) ≡ returned (s', valid')
      → (boost_id == b) ≡ false
      → Kept b s s'
  unfolding goroutine
  goroutine-Kept http now boost_id args url s s' valid valid' b e other =
      elim (verdict-cases (verdict http env args url)) [
        | inl crash ↦ absurd (cc (rw crash at e))
        | inr (inl silent) ↦
            let same : s ≡ s' = cc (rw silent at e) in
            inr (sym (ap (ops.get_forkchoice_response b) same))
        | inr (inr (id, answer)) ↦
            let same : ops.set_forkchoice_response (now url) boost_id url (env.bytes_string id) s
                ≡ s' =
              cc (rw answer at e) in
            inr (
              sym (ap (ops.get_forkchoice_response b) same)
              ∙ laws.responses-set_other (now url) boost_id url (env.bytes_string id) b s other)
      ]

  reply-Kept :
      (now : ℕ) (reply : Reply Raw) (s s' : S) (r r' : ExecutionPayloadWithTxRootV1) (b : String)
      → process_reply env ops now reply (s, r) ≡ returned (s', r')
      → Kept b s s'
  reply-Kept now reply s s' r r' b e = elim (process_reply_writes env ops now reply s s' r r' e) [
    | inl same ↦ inr (ap (ops.get_forkchoice_response b) same)
    | inr w ↦ inr (
        ap (ops.get_forkchoice_response b) w.written
        ∙ laws.responses-set_payload now w.payload.block_hash _ b s)
  ]

  -- What a move does to the responses under b, and to the call: it keeps its id, or a call that
  -- wrote under its id loses it.
  record CallMoved (b : String) (s : S) (call : Call) (s' : S) (call' : Call) : Type 0 where
    kept : writes env.bytes_string b call ≡ false → Kept b s s'
    silent : writes env.bytes_string b call ≡ false → writes env.bytes_string b call' ≡ false
    id :
        (owned call' ≡ owned call)
        ⊎ ((owned call' ≡ none)
            × (owns env.bytes_string b (owned call) ≡ writes env.bytes_string b call))

  idle :
      (b : String) (s : S) (call call' : Call)
      → writes env.bytes_string b call' ≡ false
      → (owned call' ≡ owned call)
        ⊎ ((owned call' ≡ none)
            × (owns env.bytes_string b (owned call) ≡ writes env.bytes_string b call))
      → CallMoved b s call s call'
  idle b s call call' silent id = record { kept = λ h. inr refl; silent = λ h. silent; id = id }

  -- A goroutine that outlives its call: the id of a call that failed goes with its last goroutine.
  late-CallMoved :
      {s s' : S} (b : String) (id : Bytes) (success : Bool) (urls rest : List String) {url : String}
      → Perm urls (url ∷ rest)
      → ((env.bytes_string id == b) ≡ false → Kept b s s')
      → CallMoved b s (forkchoice_answered id success urls) s' (forkchoice_answered id success rest)
  late-CallMoved b id success [] rest perm kept = absurd (cc (Perm.eq-nil (Perm.symm perm)))
  late-CallMoved b id true (u ∷ urls) [] perm kept = record {
    kept = kept;
    silent = λ h. refl;
    id = inl refl;
  }
  late-CallMoved b id true (u ∷ urls) (v ∷ rest) perm kept = record {
    kept = kept;
    silent = λ h. h;
    id = inl refl;
  }
  late-CallMoved b id false (u ∷ urls) [] perm kept = record {
    kept = kept;
    silent = λ h. refl;
    id = inr (refl, refl);
  }
  late-CallMoved b id false (u ∷ urls) (v ∷ rest) perm kept = record {
    kept = kept;
    silent = λ h. h;
    id = inl refl;
  }

  succeeds-CallMoved :
      (b : String) (s : S) (id : Bytes) (urls : List String)
      → CallMoved b s (forkchoice id zero urls true) s (forkchoice_answered id true urls)
  succeeds-CallMoved b s id [] = record { kept = λ h. inr refl; silent = λ h. refl; id = inl refl }
  succeeds-CallMoved b s id (url ∷ urls) = record {
    kept = λ h. inr refl;
    silent = λ h. h;
    id = inl refl;
  }

  fails-CallMoved :
      (b : String) (s : S) (id : Bytes) (urls : List String)
      → CallMoved b s (forkchoice id zero urls false) s (forkchoice_answered id false urls)
  fails-CallMoved b s id [] = record {
    kept = λ h. inr refl;
    silent = λ h. refl;
    id = inr (refl, refl);
  }
  fails-CallMoved b s id (url ∷ urls) = record {
    kept = λ h. inr refl;
    silent = λ h. h;
    id = inl refl;
  }

  Move-CallMoved :
      {Request Response : Type 0} {s s' : S} {call call' : Call} (b : String)
      → Move Request Response env ops m s call s' call'
      → CallMoved b s call s' call'
  Move-CallMoved b (goroutine_runs http now args perm e) = record {
    kept = λ other. goroutine-Kept http now _ args _ _ _ _ _ b e other;
    silent = λ other. other;
    id = inl refl;
  }
  Move-CallMoved b
        (late_goroutine_runs {id} {success} {urls} {rest} http now args valid valid' perm e) =
      late-CallMoved b id success urls rest perm
        (goroutine-Kept http now _ args _ _ _ valid valid' b e)
  Move-CallMoved b (forkchoice_succeeds {urls}) = succeeds-CallMoved b _ _ urls
  Move-CallMoved b (forkchoice_fails {urls}) = fails-CallMoved b _ _ urls
  Move-CallMoved b (reply_comes now reply e) = record {
    kept = λ h. reply-Kept now reply _ _ _ _ b e;
    silent = λ h. refl;
    id = inl refl;
  }
  Move-CallMoved b (reply_crashes now reply e) = idle b _ _ _ refl (inl refl)
  Move-CallMoved b (header_succeeds e) = idle b _ _ _ refl (inl refl)
  Move-CallMoved b (header_fails e) = idle b _ _ _ refl (inl refl)
  Move-CallMoved b (relays_answer replies e) = idle b _ _ _ refl (inl refl)
  Move-CallMoved b (relays_refuse replies e) = idle b _ _ _ refl (inl refl)
  Move-CallMoved b (relays_crash replies e) = idle b _ _ _ refl (inl refl)

  -- The same for the list of calls, if none of them writes under b.
  pub record Quiet (b : String) (s : S) (calls : List Call) (s' : S) (calls' : List Call)
      : Type 0 where
    pub kept : Kept b s s'
    pub silent : any_writes env.bytes_string b calls' ≡ false
    pub id :
        contains b (ids_of env.bytes_string calls) ≡ true
        → contains b (ids_of env.bytes_string calls') ≡ true

  pub OneMoves-Quiet :
      {Request Response : Type 0} {s s' : S} {calls calls' : List Call} (b : String)
      → OneMoves Request Response env ops m s calls s' calls'
      → any_writes env.bytes_string b calls ≡ false
      → Quiet b s calls s' calls'
  OneMoves-Quiet b (first {call} {call'} {calls} move) h =
      let c = Move-CallMoved b move in
      let own : writes env.bytes_string b call ≡ false = ground arith in
      let others : any_writes env.bytes_string b calls ≡ false = ground arith in
      record {
        kept = c.kept own;
        silent = rw (c.silent own) others;
        id = λ has. elim c.id [
          | inl same ↦ rw same has
          | inr (gone, wrote) ↦ rw gone (
              ground (
                arith,
                has,
                wrote,
                own,
                contains-with_id env.bytes_string b (owned call) (ids_of env.bytes_string calls),
              ))
        ];
      }
  OneMoves-Quiet b (later {call} {calls} {calls'} move) h =
      let own : writes env.bytes_string b call ≡ false = ground arith in
      let others : any_writes env.bytes_string b calls ≡ false = ground arith in
      let q = OneMoves-Quiet b move others in
      record {
        kept = q.kept;
        silent = rw own q.silent;
        id = λ has. ground (
          arith,
          has,
          q.id,
          contains-with_id env.bytes_string b (owned call) (ids_of env.bytes_string calls),
          contains-with_id env.bytes_string b (owned call) (ids_of env.bytes_string calls'),
        );
      }

  pub OneMoves-Shrinks :
      {Request Response : Type 0} {s s' : S} {calls calls' : List Call}
      → OneMoves Request Response env ops m s calls s' calls'
      → Shrinks (ids_of env.bytes_string calls) (ids_of env.bytes_string calls')
  OneMoves-Shrinks (first {call} {call'} {calls} move) = elim (Move-CallMoved "" move).id [
    | inl same ↦ rw same (Shrinks-refl _)
    | inr (gone, wrote) ↦
        rw gone (Shrinks-drop env.bytes_string (owned call) (ids_of env.bytes_string calls))
  ]
  OneMoves-Shrinks (later {call} {calls} {calls'} move) =
      Shrinks-with_id env.bytes_string (owned call) _ _ (OneMoves-Shrinks move)
