-- ===== src/Service/Tests/Channel.antt =====
-- A channel for the replies of two relays.
use mathlib.Core.List.{Perm}
use mathlib.Core.List.Perm
use mathlib.Core.WellFounded.{Acc}
use mev_boost.Common.{ℕ, ◌<◌, ◌≡◌, refl, ◌⊎◌, List, [], ◌∷◌, ◌++◌, length, arith}
use mev_boost.Service.Channel.{
  Channel, opened, ChannelStep, sends, receives, ChannelRun, unmoved, one_more, Moves,
  channel_flows,
}

abbrev two_replies : List ℕ
two_replies = 1 ∷ 2 ∷ []

-- The second one has come and has been received, the first one is in the channel.
abbrev second_first : Channel ℕ
second_first = record { capacity = 2; sending = []; buffer = 1 ∷ []; received = 2 ∷ [] }

second_came : ChannelRun (opened two_replies) second_first
second_came =
    one_more
      (one_more (one_more unmoved (sends (Perm.swap 2 1 []) (omega arith)))
        (receives refl (omega arith)))
      (sends Perm.rfl (omega arith))

channel_flows_example :
    Perm two_replies (second_first.received ++ second_first.buffer ++ second_first.sending)
    × ((second_first.sending ≡ []) ⊎ (length second_first.buffer < second_first.capacity))
    × Acc Moves second_first
    × (Perm two_replies second_first.received ⊎ ((d : Channel ℕ) × ChannelStep second_first d))
channel_flows_example = channel_flows two_replies second_first second_came
