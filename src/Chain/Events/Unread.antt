-- ===== src/Chain/Events/Unread.antt =====
-- What a subscription that is not read does to the chain.
use availproject_op_evm.Prelude.{ℕ, ◌+◌, ◌≡◌, ◌≢◌, ◌≤◌, ◌<◌, none, some, length, arith}
use availproject_op_evm.Chain.Writes.{Event}
use availproject_op_evm.Chain.Events.{
  EventStream, subscribe, begin_push, deliver, finish_push, receive, close,
}
use availproject_op_evm.Chain.Events.Counts.{
  queued, Counts, subscribes-Counts, begins-Counts, delivers-Counts, finishes-Counts,
  receives-Counts, closes-Counts,
}

-- A run of the stream, whatever its users do, in which nobody receives from one subscription; with the
-- number of pushes that came to their end.
pub data Run (i : ℕ) : ℕ → EventStream → EventStream → Type 0 where
  start : (s : EventStream) → Run i 0 s s
  subscribes :
      {n : ℕ} {s t : EventStream} (u : EventStream)
      → Run i n s t
      → subscribe t ≡ some u
      → Run i n s u
  begins :
      {n : ℕ} {s t : EventStream} (e : Event) (u : EventStream)
      → Run i n s t
      → begin_push e t ≡ some u
      → Run i n s u
  delivers :
      {n : ℕ} {s t : EventStream} (u : EventStream) → Run i n s t → deliver t ≡ some u → Run i n s u
  finishes :
      {n : ℕ} {s t : EventStream} (u : EventStream)
      → Run i n s t
      → finish_push t ≡ some u
      → Run i (n + 1) s u
  receives : {n : ℕ} {s t : EventStream} (j : ℕ) → j ≢ i → Run i n s t → Run i n s (receive j t)
  closes : {n : ℕ} {s t : EventStream} (j : ℕ) → Run i n s t → Run i n s (close j t)

Run-Counts :
    (i n : ℕ) (s t : EventStream)
    → s.pushing ≡ none
    → i < s.count
    → queued i s ≤ 5
    → Run i n s t
    → Counts i (queued i s) n t
Run-Counts i _ s _ idle member room (start _) = (member, rw idle (omega arith), room)
Run-Counts i _ s _ idle member room (subscribes {t} u run e) =
    subscribes-Counts i _ _ t.count t.subscription_at t.pushing u
      (Run-Counts i _ s t idle member room run) e
Run-Counts i _ s _ idle member room (begins {t} x u run e) =
    begins-Counts i _ _ t.count t.subscription_at x t.pushing u
      (Run-Counts i _ s t idle member room run) e
Run-Counts i _ s _ idle member room (delivers {t} u run e) =
    delivers-Counts i _ _ t.count t.subscription_at t.pushing u
      (Run-Counts i _ s t idle member room run) e
Run-Counts i _ s _ idle member room (finishes {t} u run e) =
    finishes-Counts i _ _ t.count t.subscription_at t.pushing u
      (Run-Counts i _ s t idle member room run) e
Run-Counts i _ s _ idle member room (receives {t} j other run) =
    receives-Counts i _ _ t.count t.subscription_at j t.pushing other
      (Run-Counts i _ s t idle member room run)
Run-Counts i _ s _ idle member room (closes {t} j run) =
    closes-Counts i _ _ t.count t.subscription_at j t.pushing
      (Run-Counts i _ s t idle member room run)

-- From a moment at which no push is in progress and the channel of a subscription holds at most five
-- events: as long as nobody receives from that subscription, closed or not, and whatever else happens,
-- only as many pushes come to their end as there was room in the channel for.
pub unread-bounded :
    (i n : ℕ) (s t : EventStream)
    → s.pushing ≡ none
    → i < s.count
    → length (s.subscription_at i).queue ≤ 5
    → Run i n s t
    → n + length (s.subscription_at i).queue ≤ 5
unread-bounded i n s t idle member room run =
    let (_, counted, bounded) = Run-Counts i n s t idle member room run in
    omega (arith, counted, bounded)
