-- ===== src/Chain/Events/Counts.antt =====
-- Each step of the stream keeps count of what one channel holds.
use availproject_op_evm.Prelude.{
  ℕ, ◌+◌, ◌≡◌, ◌≢◌, ◌≤◌, ◌<◌, refl, sym, ap, subst, ◌∙◌, inl, inr, Bool-cases, ==_refl, ==_iff,
  ltb→lt, true, false, Option, none, some, [], ◌∷◌, length, length-append, ltb, ◌==◌, if◌then◌else◌,
  arith,
}
use availproject_op_evm.Chain.Writes.{Event}
use availproject_op_evm.Chain.Events.{
  Subscription, EventStream, update, opened, add_event, take_event, mark_closed, subscribe,
  begin_push, deliver, finish_push, receive, close,
}

abbrev pub queued : ℕ → EventStream → ℕ
queued i s = length (s.subscription_at i).queue

-- One if the push in progress has passed the subscription.
abbrev pub passed : ℕ → Option (Event × ℕ) → ℕ
passed i none = 0
passed i (some (e, k)) = if ltb i k then 1 else 0

-- The events in the channel are those of the pushes that passed it.
abbrev pub Counts : ℕ → ℕ → ℕ → EventStream → Type 0
Counts i base n s = (i < s.count) × (queued i s ≡ base + n + passed i s.pushing) × (queued i s ≤ 5)

update-other :
    (i j : ℕ) (f : Subscription → Subscription) (at : ℕ → Subscription)
    → j ≢ i
    → update j f at i ≡ at i
update-other i j f at other = let test : (i == j) ≡ false = ground (arith, other) in rw test refl

update-same :
    (i : ℕ) (f : Subscription → Subscription) (at : ℕ → Subscription) → update i f at i ≡ f (at i)
update-same i f at = rw (==_refl i) refl

-- A step at another channel.
keeps :
    (i j base n count count' : ℕ) (f : Subscription → Subscription) (at : ℕ → Subscription)
    (p : Option (Event × ℕ))
    → j ≢ i
    → count ≤ count'
    → Counts i base n (record { count = count; subscription_at = at; pushing = p })
    → Counts i base n (record { count = count'; subscription_at = update j f at; pushing = p })
keeps i j base n count count' f at p other more (member, counted, room) =
    let same = update-other i j f at other in
    (
      omega (arith, member, more),
      ap (λ (sub : Subscription). length sub.queue) same ∙ counted,
      subst (λ (sub : Subscription). length sub.queue ≤ 5) (sym same) room,
    )

-- The stream that a step leaves, if it does not wait.
abbrev or_else : EventStream → Option EventStream → EventStream
or_else t none = t
or_else t (some u) = u

-- Whether a push has passed the subscription, before and after it has sent to a channel.
passed-next : (i k : ℕ) (x : Event) → k ≢ i → passed i (some (x, k + 1)) ≡ passed i (some (x, k))
passed-next i k x other = ground (arith, other)

passed-here : (i : ℕ) (x : Event) → passed i (some (x, i)) ≡ 0
passed-here i x = ground arith

passed-after : (i k : ℕ) (x : Event) → i < k → passed i (some (x, k)) ≡ 1
passed-after i k x past = ground (arith, past)

length-mark_closed :
    (i j : ℕ) (at : ℕ → Subscription)
    → length (update j mark_closed at i).queue ≡ length (at i).queue
length-mark_closed i j at = elim (Bool-cases (i == j)) [ inl e ↦ rw e refl | inr e ↦ rw e refl ]

module _ (i base n count : ℕ) (at : ℕ → Subscription) where
  abbrev stream : Option (Event × ℕ) → EventStream
  stream p = record { count = count; subscription_at = at; pushing = p }

  pub subscribes-Counts :
      (p : Option (Event × ℕ)) (u : EventStream)
      → Counts i base n (stream p)
      → subscribe (stream p) ≡ some u
      → Counts i base n u
  unfolding subscribe
  subscribes-Counts (some p) u c e = absurd (cc e)
  subscribes-Counts none u c e = subst (Counts i base n) (ap (or_else u) e) (
      keeps i count base n count (count + 1) opened at none (λ same. omega (arith, c.0, same))
        (omega arith) c)

  pub begins-Counts :
      (x : Event) (p : Option (Event × ℕ)) (u : EventStream)
      → Counts i base n (stream p)
      → begin_push x (stream p) ≡ some u
      → Counts i base n u
  unfolding begin_push
  begins-Counts x (some p) u c e = absurd (cc e)
  begins-Counts x none u (member, counted, room) e =
      let first : ltb i 0 ≡ false = ground arith in
      subst (Counts i base n) (ap (or_else u) e) (member, rw first counted, room)

  finish_push-early :
      (x : Event) (k : ℕ) → ltb k count ≡ true → finish_push (stream (some (x, k))) ≡ none
  unfolding finish_push
  finish_push-early x k more = rw more refl

  finish_push-over :
      (x : Event) (k : ℕ)
      → ltb k count ≡ false
      → finish_push (stream (some (x, k))) ≡ some (stream none)
  unfolding finish_push
  finish_push-over x k over = rw over refl

  pub finishes-Counts :
      (p : Option (Event × ℕ)) (u : EventStream)
      → Counts i base n (stream p)
      → finish_push (stream p) ≡ some u
      → Counts i base (n + 1) u
  unfolding finish_push
  finishes-Counts none u c e = absurd (cc e)
  finishes-Counts (some (x, k)) u (member, counted, room) e = elim (Bool-cases (ltb k count)) [
    | inl more ↦ absurd (cc (sym (finish_push-early x k more) ∙ e))
    | inr over ↦
        let past : i < k = ground (arith, member, over) in
        subst (Counts i base (n + 1)) (ap (or_else u) (sym (finish_push-over x k over) ∙ e))
          (member, omega (arith, counted, passed-after i k x past), room)
  ]

  deliver-over : (x : Event) (k : ℕ) → ltb k count ≡ false → deliver (stream (some (x, k))) ≡ none
  unfolding deliver
  deliver-over x k over = rw over refl

  deliver-full :
      (x : Event) (k : ℕ)
      → ltb k count ≡ true
      → ltb (length (at k).queue) 5 ≡ false
      → deliver (stream (some (x, k))) ≡ none
  unfolding deliver
  deliver-full x k more full = rw (more, full) refl

  deliver-sends :
      (x : Event) (k : ℕ)
      → ltb k count ≡ true
      → ltb (length (at k).queue) 5 ≡ true
      → deliver (stream (some (x, k)))
        ≡ some (record {
          count = count;
          subscription_at = update k (add_event x) at;
          pushing = some (x, k + 1);
        })
  unfolding deliver
  deliver-sends x k more free = rw (more, free) refl

  -- The stream after a send.
  abbrev after_send : Event → ℕ → EventStream
  after_send x k = record {
    count = count;
    subscription_at = update k (add_event x) at;
    pushing = some (x, k + 1);
  }

  -- A send to the channel itself, and one to another.
  here-Counts :
      (x : Event)
      → Counts i base n (stream (some (x, i)))
      → ltb (length (at i).queue) 5 ≡ true
      → Counts i base n (after_send x i)
  here-Counts x (member, counted, room) free =
      let grown : queued i (after_send x i) ≡ length (at i).queue + 1 =
        ap (λ (sub : Subscription). length sub.queue) (update-same i (add_event x) at)
        ∙ length-append (at i).queue (x ∷ []) in
      let less : length (at i).queue < 5 = ltb→lt _ _ free in
      (
        member,
        grown ∙ omega (arith, counted, passed-here i x, passed-after i (i + 1) x (omega arith)),
        subst (λ k. k ≤ 5) (sym grown) (omega (arith, less)),
      )

  elsewhere-Counts :
      (x : Event) (k : ℕ)
      → k ≢ i
      → Counts i base n (stream (some (x, k)))
      → Counts i base n (after_send x k)
  elsewhere-Counts x k other (member, counted, room) =
      keeps i k base n count count (add_event x) at (some (x, k + 1)) other (omega arith)
        (member, omega (arith, counted, passed-next i k x other), room)

  sent-Counts :
      (x : Event) (k : ℕ)
      → Counts i base n (stream (some (x, k)))
      → ltb (length (at k).queue) 5 ≡ true
      → Counts i base n (after_send x k)
  sent-Counts x k c free = elim (Bool-cases (i == k)) [
    | inl same ↦
        subst
          (λ j.
            Counts i base n (stream (some (x, j)))
            → ltb (length (at j).queue) 5 ≡ true
            → Counts i base n (after_send x j))
          ((==_iff i k).0 same) (here-Counts x) c free
    | inr differ ↦ elsewhere-Counts x k (λ e. ground (arith, differ, e)) c
  ]

  pub delivers-Counts :
      (p : Option (Event × ℕ)) (u : EventStream)
      → Counts i base n (stream p)
      → deliver (stream p) ≡ some u
      → Counts i base n u
  unfolding deliver
  delivers-Counts none u c e = absurd (cc e)
  delivers-Counts (some (x, k)) u c e = elim (Bool-cases (ltb k count)) [
    | inr over ↦ absurd (cc (sym (deliver-over x k over) ∙ e))
    | inl more ↦ elim (Bool-cases (ltb (length (at k).queue) 5)) [
      | inr full ↦ absurd (cc (sym (deliver-full x k more full) ∙ e))
      | inl free ↦
          subst (Counts i base n) (ap (or_else u) (sym (deliver-sends x k more free) ∙ e))
            (sent-Counts x k c free)
    ]
  ]

  pub receives-Counts :
      (j : ℕ) (p : Option (Event × ℕ))
      → j ≢ i
      → Counts i base n (stream p)
      → Counts i base n (receive j (stream p))
  unfolding receive
  receives-Counts j p other c = keeps i j base n count count take_event at p other (omega arith) c

  pub closes-Counts :
      (j : ℕ) (p : Option (Event × ℕ))
      → Counts i base n (stream p)
      → Counts i base n (close j (stream p))
  unfolding close
  closes-Counts j p (member, counted, room) =
      let same : length (update j mark_closed at i).queue ≡ length (at i).queue =
        length-mark_closed i j at in
      (member, same ∙ counted, subst (λ k. k ≤ 5) (sym same) room)
