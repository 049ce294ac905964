-- ===== src/Service/Channel.antt =====
-- lib/service.go: how the replies of the relays reach a handler. GetPayloadHeaderV1 and
-- ProposeBlindedBlockV1 make a channel with room for one reply of each relay, start a goroutine for
-- each relay that sends the reply, and receive as many replies as the channel has room for, if they
-- do not return before.
use mathlib.Core.List.{Perm}
use mathlib.Core.List.Perm
use mathlib.Core.WellFounded.{Acc}
use mathlib.Core.Path.{subst}
use mev_boost.Common.{
  ℕ, zero, suc, ◌+◌, ◌≤◌, ◌<◌, ◌≡◌, refl, sym, ap, ◌∙◌, ◌⊎◌, inl, inr, List, [], ◌∷◌, ◌++◌, length,
  length-append, append_assoc, append-nil, arith,
}
use mev_boost.Common.Orders.{length-perm}

-- The replies that goroutines have to send, those in the channel, the first one in front, and those
-- that the handler has received, in order.
pub record Channel {ℓ} (A : Type ℓ) : Type ℓ where
  pub capacity : ℕ
  pub sending : List A
  pub buffer : List A
  pub received : List A

module _ {ℓ} {A : Type ℓ} where
  abbrev pub opened : List A → Channel A
  opened replies = record {
    capacity = length replies;
    sending = replies;
    buffer = [];
    received = [];
  }

  abbrev pub drained : List A → Channel A
  drained replies = record {
    capacity = length replies;
    sending = [];
    buffer = [];
    received = replies;
  }

  -- A send waits while the channel is full, a receive while it is empty.
  pub data ChannelStep (c : Channel A) : Channel A → Type ℓ where
    sends :
        {reply : A} {rest : List A}
        → Perm c.sending (reply ∷ rest)
        → length c.buffer < c.capacity
        → ChannelStep c (record c { sending = rest; buffer = c.buffer ++ reply ∷ [] })
    receives :
        {reply : A} {rest : List A}
        → c.buffer ≡ reply ∷ rest
        → length c.received < c.capacity
        → ChannelStep c (record c { buffer = rest; received = c.received ++ reply ∷ [] })

  pub data ChannelRun (c : Channel A) : Channel A → Type ℓ where
    unmoved : ChannelRun c c
    one_more : {d e : Channel A} → ChannelRun c d → ChannelStep d e → ChannelRun c e

  -- No reply is lost or doubled.
  record IsWhole (replies : List A) (c : Channel A) : Type ℓ where
    room : c.capacity ≡ length replies
    all : Perm replies (c.received ++ c.buffer ++ c.sending)

  ChannelStep-IsWhole :
      (replies : List A) {c d : Channel A} → ChannelStep c d → IsWhole replies c → IsWhole replies d
  ChannelStep-IsWhole replies {c} (sends {reply} {rest} perm room) w = record {
    room = w.room;
    all =
        subst (Perm replies)
          (sym (
            ap (λ l. l ++ rest) (sym (append_assoc c.received c.buffer (reply ∷ [])))
            ∙ append_assoc (c.received ++ c.buffer) (reply ∷ []) rest))
          (Perm.trans w.all (Perm.append_left (c.received ++ c.buffer) perm));
  }
  ChannelStep-IsWhole replies {c} (receives {reply} {rest} front room) w = record {
    room = w.room;
    all =
        subst (Perm replies)
          (ap (λ b. c.received ++ b ++ c.sending) front
            ∙ ap (λ l. l ++ c.sending) (sym (append_assoc c.received (reply ∷ []) rest)))
          w.all;
  }

  ChannelRun-IsWhole :
      (replies : List A) {c : Channel A} → ChannelRun (opened replies) c → IsWhole replies c
  ChannelRun-IsWhole replies unmoved = record { room = refl; all = Perm.rfl }
  ChannelRun-IsWhole replies (one_more run step) =
      ChannelStep-IsWhole replies step (ChannelRun-IsWhole replies run)

  IsWhole-length :
      (replies : List A) {c : Channel A}
      → IsWhole replies c
      → length c.received + length c.buffer + length c.sending ≡ c.capacity
  IsWhole-length replies {c} w = omega (
    arith,
    w.room,
    length-perm w.all,
    length-append (c.received ++ c.buffer) c.sending,
    length-append c.received c.buffer,
  )

  empty_or : (xs : List A) → (xs ≡ []) ⊎ ((x : A) × (rest : List A) × (xs ≡ x ∷ rest))
  empty_or [] = inl refl
  empty_or (x ∷ rest) = inr (x, rest, refl)

  -- A goroutine that has something to send has room for it.
  can_send :
      (c : Channel A)
      → length c.received + length c.buffer + length c.sending ≡ c.capacity
      → (c.sending ≡ []) ⊎ (length c.buffer < c.capacity)
  can_send c e = elim (empty_or c.sending) [
    | inl none_left ↦ inl none_left
    | inr (reply, rest, left) ↦ inr (omega (arith, e, ap length left))
  ]

  -- Replies are sent and received, or all of them have been.
  flows_on :
      (replies : List A) (c : Channel A)
      → IsWhole replies c
      → Perm replies c.received ⊎ ((d : Channel A) × ChannelStep c d)
  flows_on replies c w =
      let e = IsWhole-length replies w in
      elim (empty_or c.buffer) [
        | inr (reply, rest, front) ↦ inr (_, receives front (omega (arith, e, ap length front)))
        | inl no_buffer ↦ elim (empty_or c.sending) [
          | inr (reply, rest, left) ↦
              inr
                (_, sends (subst (Perm c.sending) left Perm.rfl) (omega (arith, e, ap length left)))
          | inl none_left ↦ inl (
              subst (Perm replies)
                (ap (λ b. c.received ++ b ++ c.sending) no_buffer
                  ∙ ap (λ l. c.received ++ [] ++ l) none_left
                  ∙ append-nil (c.received ++ [])
                  ∙ append-nil c.received)
                w.all)
        ]
      ]

  left_to_do : Channel A → ℕ
  left_to_do c = length c.sending + length c.sending + length c.buffer

  ChannelStep-left : {c d : Channel A} → ChannelStep c d → left_to_do d < left_to_do c
  unfolding left_to_do
  ChannelStep-left {c} (sends {reply} perm room) =
      omega (arith, length-perm perm, length-append c.buffer (reply ∷ []))
  ChannelStep-left {c} (receives front room) = omega (arith, ap length front)

  -- d is what one step makes of c.
  abbrev pub Moves : Channel A → Channel A → Type ℓ
  Moves d c = ChannelStep c d

  ends_within : (n : ℕ) (c : Channel A) → left_to_do c ≤ n → Acc Moves c
  ends_within zero c le = Acc.intro c (λ d step. absurd (omega (arith, ChannelStep-left step, le)))
  ends_within (suc n) c le =
      Acc.intro c (λ d step. ends_within n d (omega (arith, ChannelStep-left step, le)))

  -- In every state that the goroutines and the handler reach over a channel with room for a reply of
  -- each relay, no reply has been lost or doubled; a goroutine with a reply has room for it, so that
  -- none is left behind when the handler returns early; there is no infinite sequence of sends and
  -- receives; and the handler has received all the replies, in some order, or a send or a receive
  -- can go on.
  pub channel_flows :
      (replies : List A) (c : Channel A)
      → ChannelRun (opened replies) c
      → Perm replies (c.received ++ c.buffer ++ c.sending)
        × ((c.sending ≡ []) ⊎ (length c.buffer < c.capacity))
        × Acc Moves c
        × (Perm replies c.received ⊎ ((d : Channel A) × ChannelStep c d))
  channel_flows replies c run =
      let w = ChannelRun-IsWhole replies run in
      (
        w.all,
        can_send c (IsWhole-length replies w),
        ends_within (left_to_do c) c (omega arith),
        flows_on replies c w,
      )

  drains :
      (n : ℕ) (replies order done : List A)
      → Perm replies order
      → length done + length order ≤ n
      → {c : Channel A}
      → ChannelRun c (record { capacity = n; sending = replies; buffer = []; received = done })
      → ChannelRun c (record { capacity = n; sending = []; buffer = []; received = done ++ order })
  drains n replies [] done perm le {c} run =
      subst (ChannelRun c)
        (ap (λ l. record { capacity = n; sending = l; buffer = []; received = done })
            (Perm.eq-nil perm)
          ∙ ap (λ l. record { capacity = n; sending = []; buffer = []; received = l })
              (sym (append-nil done)))
        run
  drains n replies (reply ∷ order) done perm le {c} run =
      subst (λ l. ChannelRun c (record { capacity = n; sending = []; buffer = []; received = l }))
        (append_assoc done (reply ∷ []) order)
        (drains n order order (done ++ reply ∷ []) Perm.rfl
          (omega (arith, length-append done (reply ∷ [])))
          (one_more (one_more run (sends perm (omega arith))) (receives refl (omega arith))))

  -- The replies may come in any order.
  pub drained-Reached :
      (replies order : List A) → Perm replies order → ChannelRun (opened replies) (drained order)
  drained-Reached replies order perm =
      let run : ChannelRun (opened replies)
          (record { capacity = length replies; sending = []; buffer = []; received = order }) =
        drains (length replies) replies order [] perm (omega (arith, length-perm perm)) unmoved in
      subst
        (λ n.
          ChannelRun (opened replies)
            (record { capacity = n; sending = []; buffer = []; received = order }))
        (length-perm perm) run
