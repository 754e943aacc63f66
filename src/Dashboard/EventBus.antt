-- ===== src/Dashboard/EventBus.antt =====
-- internal/dashboard/eventbus.go: subscribers with bounded channels. A channel is its name and the
-- events that wait in it; the lock makes each method one step. A closed channel is one that is no
-- longer in the map.
use gpu_scheduler.Common.{List, [], ◌∷◌, ◌++◌, ℕ, suc, ltb, ◌==◌, length, if◌then◌else◌}

-- The capacity that Subscribe gives a channel.
abbrev pub channel_capacity : ℕ
channel_capacity = 64

pub record EventBus (E : Type 0) : Type 0 where
  pub subscribers : List (ℕ × List E)
  -- the name of the next channel that `make` gives
  pub fresh : ℕ

module _ {E : Type 0} where
  unfoldable pub new_event_bus : EventBus E
  new_event_bus = record { subscribers = []; fresh = 0 }

  unfoldable pub subscribe : EventBus E → EventBus E × ℕ
  subscribe eb =
      (record { subscribers = (eb.fresh, []) ∷ eb.subscribers; fresh = suc eb.fresh }, eb.fresh)

  unfoldable pub remove_channel : ℕ → List (ℕ × List E) → List (ℕ × List E)
  remove_channel ch [] = []
  remove_channel ch ((c, waiting) ∷ subs) =
      if c == ch then subs else (c, waiting) ∷ remove_channel ch subs

  unfoldable pub unsubscribe : EventBus E → ℕ → EventBus E
  unsubscribe eb ch = record eb { subscribers = remove_channel ch eb.subscribers }

  -- The `select`: sent if the channel has room, and dropped otherwise.
  unfoldable pub offer : E → List E → List E
  offer event waiting =
      if ltb (length waiting) channel_capacity then waiting ++ event ∷ [] else waiting

  unfoldable pub publish_to : E → List (ℕ × List E) → List (ℕ × List E)
  publish_to event [] = []
  publish_to event ((c, waiting) ∷ subs) = (c, offer event waiting) ∷ publish_to event subs

  unfoldable pub publish : EventBus E → E → EventBus E
  publish eb event = record eb { subscribers = publish_to event eb.subscribers }
