-- ===== src/Chain/Events.antt =====
-- pkg/blockchain/subscription.go: the subscriptions to the chain's events, and the stream that every
-- write pushes its event into.
pub mod Counts
pub mod Unread
use availproject_op_evm.Prelude.{
  ℕ, ◌+◌, Bool, true, false, Option, none, some, List, [], ◌∷◌, ◌++◌, length, ltb, ◌==◌,
  if◌then◌else◌,
}
use availproject_op_evm.Chain.Writes.{Event}

-- The capacity of a channel.
abbrev pub capacity : ℕ
capacity = 5

-- `subscription`: the events that wait in its channel, the oldest first, and whether it was closed.
pub record Subscription : Type 0 where
  pub queue : List Event
  pub closed : Bool

-- `eventStream`: the subscriptions by their place in `updateCh`, and a `push` that holds the lock, with
-- the place of the channel that it sends to next.
pub record EventStream : Type 0 where
  pub count : ℕ
  pub subscription_at : ℕ → Subscription
  pub pushing : Option (Event × ℕ)

abbrev pub update : ℕ → (Subscription → Subscription) → (ℕ → Subscription) → ℕ → Subscription
update j f at k = if k == j then f (at k) else at k

abbrev pub opened : Subscription → Subscription
opened old = record { queue = []; closed = false }

abbrev pub add_event : Event → Subscription → Subscription
add_event e sub = record sub { queue = sub.queue ++ (e ∷ []) }

abbrev pub rest_of : List Event → List Event
rest_of [] = []
rest_of (e ∷ es) = es

abbrev pub take_event : Subscription → Subscription
take_event sub = record sub { queue = rest_of sub.queue }

abbrev pub mark_closed : Subscription → Subscription
mark_closed sub = record sub { closed = true }

-- `subscribe`, which waits for the lock (`none`).
unfoldable pub subscribe : EventStream → Option EventStream
subscribe s = elim (s.pushing) [
  | some p ↦ none
  | none ↦
      some (record s {
        count = s.count + 1;
        subscription_at = update s.count opened s.subscription_at;
      })
]

-- `push` takes the lock.
unfoldable pub begin_push : Event → EventStream → Option EventStream
begin_push e s = elim (s.pushing) [
  | some p ↦ none
  | none ↦ some (record s { pushing = some (e, 0) })
]

-- The next round of the loop in `push`: the send waits while the channel is full.
unfoldable pub deliver : EventStream → Option EventStream
deliver s = elim (s.pushing) [
  | none ↦ none
  | some (e, k) ↦
      if ltb k s.count
      then (if ltb (length (s.subscription_at k).queue) capacity
          then some (record s {
            subscription_at = update k (add_event e) s.subscription_at;
            pushing = some (e, k + 1);
          })
          else none)
      else none
]

-- The end of `push`.
unfoldable pub finish_push : EventStream → Option EventStream
finish_push s = elim (s.pushing) [
  | none ↦ none
  | some (e, k) ↦ if ltb k s.count then none else some (record s { pushing = none })
]

-- `GetEvent` of a subscription that takes an event, and a receive from `GetEventCh`.
unfoldable pub receive : ℕ → EventStream → EventStream
receive j s = record s { subscription_at = update j take_event s.subscription_at }

-- `Close`, which leaves the channel in the stream.
unfoldable pub close : ℕ → EventStream → EventStream
close j s = record s { subscription_at = update j mark_closed s.subscription_at }
