-- ===== src/Eth/Refines.antt =====
-- The sender keeps the promise of the channel, whatever the threads do.
use mathlib.Core.List.{append_assoc, append-nil}
use mathlib.Core.Option.{some-injective, none-ne-some}
use drivebrain_software.Base.{
  ◌≡◌, refl, ◌≢◌, ◌⊎◌, inl, inr, ap, sym, ◌∙◌, subst, Bool, true, false, List, [], ◌∷◌, ◌++◌, none,
  some,
}
use drivebrain_software.Eth.Send.{
  Sender, Place, outer, testing, parking, parked, sending, returned, Closing, not_closed, stopped,
  notified, socket_closed, joined, construct, woken, enqueue_msg_send, enqueue_on, thread_step,
  thread_at, test_wait, send_next, test_outer, close_step, close_at,
}
use drivebrain_software.Eth.Steps.{Step, enqueues, runs, closes, wakes_by_chance, Reach, here, next}
use drivebrain_software.Eth.Channel.{
  Channel, empty, ChannelStep, puts, delivers, stays, ChannelReach, ChannelReach-contents,
}

module _ {M : Type 0} where
  -- The view of a sender as a channel: first the batch in hand, then the queue.
  abbrev pub view : Sender M → Channel M
  view s = record { waiting = s.temp_msg_queue ++ s.deque; delivered = s.sent }

  -- Outside the loop the thread has no batch, and it goes to sleep only over an empty queue.
  abbrev pub Settled : Place → List M → List M → Type 0
  Settled parking temp deque = (temp ≡ []) × (deque ≡ [])
  Settled parked temp deque = (temp ≡ []) × (deque ≡ [])
  Settled sending temp deque = Unit
  Settled _ temp deque = temp ≡ []

  abbrev pub IsSettled : Sender M → Type 0
  IsSettled s = Settled s.place s.temp_msg_queue s.deque

  -- One step of the sender is one step of the channel.
  abbrev pub Simulates : Sender M → List M → Sender M → Type 0
  Simulates s new t = IsSettled t × ChannelStep (view s) new (view t)

  woken-Settled :
      (p : Place)
      → (temp deque deque' : List M) → (p ≢ parking)
      → Settled p temp deque
      → Settled (woken p) temp deque'
  unfolding woken
  woken-Settled outer temp deque deque' other h = h
  woken-Settled testing temp deque deque' other h = h
  woken-Settled parking temp deque deque' other h = absurd (other refl)
  woken-Settled parked temp deque deque' other h = h.0
  woken-Settled sending temp deque deque' other h = h
  woken-Settled returned temp deque deque' other h = h

  entered : M → Sender M → Place → Sender M
  entered m s p = record s { deque = s.deque ++ (m ∷ []); place = woken p }

  enqueue_on-cases :
      (p : Place) (m : M) (s : Sender M)
      → (enqueue_on M m s p ≡ none) ⊎ ((p ≢ parking) × (enqueue_on M m s p ≡ some (entered m s p)))
  unfolding enqueue_on entered
  enqueue_on-cases outer m s = inr (cc, refl)
  enqueue_on-cases testing m s = inr (cc, refl)
  enqueue_on-cases parking m s = inl refl
  enqueue_on-cases parked m s = inr (cc, refl)
  enqueue_on-cases sending m s = inr (cc, refl)
  enqueue_on-cases returned m s = inr (cc, refl)

  enqueue-Simulates :
      (m : M) (s t : Sender M)
      → IsSettled s
      → enqueue_msg_send M m s ≡ some t
      → Simulates s (m ∷ []) t
  unfolding enqueue_msg_send entered
  enqueue-Simulates m s t h e = elim (enqueue_on-cases s.place m s) [
    | inl locked ↦ absurd (none-ne-some t (sym locked ∙ e))
    | inr (free, does) ↦ subst (Simulates s (m ∷ [])) (some-injective _ t (sym does ∙ e)) (
      woken-Settled s.place s.temp_msg_queue s.deque (s.deque ++ (m ∷ [])) free h,
      puts m (
          ap (λ l. record { waiting = l; delivered = s.sent })
            (sym (append_assoc s.temp_msg_queue s.deque (m ∷ [])))),
    )
  ]

  test_wait-Simulates :
      (deque : List M) (running : Bool) (s : Sender M)
      → s.temp_msg_queue ≡ []
      → s.deque ≡ deque
      → Simulates s [] (test_wait M deque running s)
  unfolding test_wait
  test_wait-Simulates [] true s none_left queue = ((none_left, queue), stays refl)
  test_wait-Simulates [] false s none_left queue = (none_left, stays refl)
  test_wait-Simulates (m ∷ ms) false s none_left queue = (none_left, stays refl)
  test_wait-Simulates (m ∷ ms) true s none_left queue = (
    tt,
    stays (
        ap (λ l. record { waiting = l; delivered = s.sent })
          (rw (none_left, queue, append-nil (m ∷ ms)))),
  )

  send_next-Simulates :
      (temp : List M) (s : Sender M)
      → s.place ≡ sending
      → s.temp_msg_queue ≡ temp
      → Simulates s [] (send_next M temp s)
  unfolding send_next
  send_next-Simulates [] s at batch = (batch, stays refl)
  send_next-Simulates (m ∷ ms) s at batch =
      (rw at tt, delivers m (ms ++ s.deque) (ap (λ l. l ++ s.deque) batch) refl)

  test_outer-Simulates :
      (running : Bool) (s : Sender M)
      → s.temp_msg_queue ≡ []
      → Simulates s [] (test_outer M running s)
  unfolding test_outer
  test_outer-Simulates true s h = (h, stays refl)
  test_outer-Simulates false s h = (h, stays refl)

  thread_at-Simulates :
      (p : Place)
      → (s t : Sender M) → s.place ≡ p
      → Settled p s.temp_msg_queue s.deque
      → thread_at M p s ≡ some t
      → Simulates s [] t
  unfolding thread_at
  thread_at-Simulates outer s t at h e =
      subst (Simulates s []) (some-injective _ t e) (test_outer-Simulates s.running s h)
  thread_at-Simulates testing s t at h e =
      subst (Simulates s []) (some-injective _ t e) (test_wait-Simulates s.deque s.running s h refl)
  thread_at-Simulates parking s t at h e =
      subst (Simulates s []) (some-injective _ t e) (h, stays refl)
  thread_at-Simulates parked s t at h e = absurd (none-ne-some t e)
  thread_at-Simulates sending s t at h e =
      subst (Simulates s []) (some-injective _ t e) (send_next-Simulates s.temp_msg_queue s at refl)
  thread_at-Simulates returned s t at h e = absurd (none-ne-some t e)

  notified-Settled :
      (p : Place) (temp deque : List M) → Settled p temp deque → Settled (woken p) temp deque
  unfolding woken
  notified-Settled outer temp deque h = h
  notified-Settled testing temp deque h = h
  notified-Settled parking temp deque h = h
  notified-Settled parked temp deque h = h.0
  notified-Settled sending temp deque h = h
  notified-Settled returned temp deque h = h

  close_at-Simulates :
      (c : Closing) (p : Place)
      → (s t : Sender M) → s.place ≡ p
      → Settled p s.temp_msg_queue s.deque
      → close_at M c p s ≡ some t
      → Simulates s [] t
  unfolding close_at
  close_at-Simulates not_closed p s t at h e =
      subst (Simulates s []) (some-injective _ t e) (rw at h, stays refl)
  close_at-Simulates stopped p s t at h e =
      subst (Simulates s []) (some-injective _ t e)
        (notified-Settled p s.temp_msg_queue s.deque h, stays refl)
  close_at-Simulates notified p s t at h e =
      subst (Simulates s []) (some-injective _ t e) (rw at h, stays refl)
  close_at-Simulates socket_closed returned s t at h e =
      subst (Simulates s []) (some-injective _ t e) (rw at h, stays refl)
  close_at-Simulates socket_closed outer s t at h e = absurd (none-ne-some t e)
  close_at-Simulates socket_closed testing s t at h e = absurd (none-ne-some t e)
  close_at-Simulates socket_closed parking s t at h e = absurd (none-ne-some t e)
  close_at-Simulates socket_closed parked s t at h e = absurd (none-ne-some t e)
  close_at-Simulates socket_closed sending s t at h e = absurd (none-ne-some t e)
  close_at-Simulates joined p s t at h e = absurd (none-ne-some t e)

  pub Step-Simulates :
      {s t : Sender M} {new : List M} → IsSettled s → Step s new t → Simulates s new t
  unfolding thread_step close_step
  Step-Simulates {s = s} h (enqueues m {t = t} e) = enqueue-Simulates m s t h e
  Step-Simulates {s = s} h (runs {t = t} e) = thread_at-Simulates s.place s t refl h e
  Step-Simulates {s = s} h (closes {t = t} e) = close_at-Simulates s.closing s.place s t refl h e
  Step-Simulates {s = s} h (wakes_by_chance at) = ((rw at at h).0, stays refl)

  pub Reach-Simulates :
      {s : Sender M} {all : List M}
      → Reach (construct M) all s
      → IsSettled s × ChannelReach (empty M) all (view s)
  unfolding construct
  Reach-Simulates here = (refl, ChannelReach.here)
  Reach-Simulates (next r step e) =
      let (settled, before) = Reach-Simulates r in
      let (settled', one) = Step-Simulates settled step in
      (settled', ChannelReach.next before one e)

  -- From the constructor on, whatever the threads do and in whatever order, also while the sender is
  -- destroyed, the sender is a channel: each of its steps puts the message in that is enqueued,
  -- delivers the oldest one, or changes nothing. So the messages sent, then those of the batch in
  -- hand, then those in the queue, are all the messages enqueued so far, each once and in order.
  pub sender_refines :
      {s : Sender M} {all : List M}
      → Reach (construct M) all s
      → ChannelReach (empty M) all (view s) × (s.sent ++ (s.temp_msg_queue ++ s.deque) ≡ all)
  sender_refines r = let (_, walk) = Reach-Simulates r in (walk, ChannelReach-contents walk)
