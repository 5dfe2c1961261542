-- ===== src/Tests/Subscriptions.antt =====
-- One subscription that nobody reads, over a push.
use availproject_op_evm.Prelude.{◌+◌, ◌≤◌, refl, false, Option, none, some, [], length, arith}
use availproject_op_evm.Chain.Writes.{new_event}
use availproject_op_evm.Chain.Events.{EventStream, begin_push, deliver, finish_push, close}
use availproject_op_evm.Chain.Events.Unread.{
  Run, start, begins, delivers, finishes, closes, unread-bounded,
}

abbrev one_channel : EventStream
one_channel = record {
  count = 1;
  subscription_at = λ k. record { queue = []; closed = false };
  pushing = none;
}

abbrev or_same : EventStream → Option EventStream → EventStream
or_same s none = s
or_same s (some t) = t

abbrev closed_channel : EventStream
closed_channel = close 0 one_channel

abbrev locked : EventStream
locked = or_same one_channel (begin_push new_event closed_channel)

abbrev delivered : EventStream
delivered = or_same one_channel (deliver locked)

abbrev pushed : EventStream
pushed = or_same one_channel (finish_push delivered)

one_push : Run 0 1 one_channel pushed
unfolding close begin_push deliver finish_push
one_push =
    finishes pushed
      (delivers delivered (begins new_event locked (closes 0 (start one_channel)) refl) refl) refl

unread-bounded_example : 1 + length (one_channel.subscription_at 0).queue ≤ 5
unread-bounded_example =
    unread-bounded 0 1 one_channel pushed refl (omega arith) (omega arith) one_push
