-- ===== src/Eth/Live.antt =====
-- The thread of a sender returns only after the destructor has begun.
use mathlib.Core.Option.{some-injective, none-ne-some}
use drivebrain_software.Base.{◌≡◌, refl, subst, Bool, true, false, List, [], ◌∷◌, some}
use drivebrain_software.Eth.Send.{
  Sender, Place, outer, testing, parking, parked, sending, returned, Closing, not_closed, stopped,
  notified, socket_closed, joined, construct, woken, enqueue_msg_send, enqueue_on, thread_step,
  thread_at, test_wait, send_next, test_outer, close_step, close_at,
}
use drivebrain_software.Eth.Steps.{Step, enqueues, runs, closes, wakes_by_chance, Reach, here, next}

-- A thread that has returned has seen `_running` false.
abbrev pub Live : Place → Bool → Type 0
Live returned running = running ≡ false
Live _ running = Unit

Live-false : (p : Place) → Live p false
Live-false outer = tt
Live-false testing = tt
Live-false parking = tt
Live-false parked = tt
Live-false sending = tt
Live-false returned = refl

Live-woken : (p : Place) (running : Bool) → Live p running → Live (woken p) running
unfolding woken
Live-woken outer running h = h
Live-woken testing running h = h
Live-woken parking running h = h
Live-woken parked running h = tt
Live-woken sending running h = h
Live-woken returned running h = h

module _ {M : Type 0} where
  abbrev pub IsLive : Sender M → Type 0
  IsLive s = Live s.place s.running

  test_wait-Live :
      (deque : List M) (running : Bool) (s : Sender M)
      → s.running ≡ running
      → IsLive (test_wait M deque running s)
  unfolding test_wait
  test_wait-Live [] true s e = tt
  test_wait-Live [] false s e = e
  test_wait-Live (m ∷ ms) false s e = e
  test_wait-Live (m ∷ ms) true s e = tt

  test_outer-Live :
      (running : Bool) (s : Sender M) → s.running ≡ running → IsLive (test_outer M running s)
  unfolding test_outer
  test_outer-Live true s e = tt
  test_outer-Live false s e = e

  send_next-Live : (temp : List M) (s : Sender M) → s.place ≡ sending → IsLive (send_next M temp s)
  unfolding send_next
  send_next-Live [] s at = tt
  send_next-Live (m ∷ ms) s at = rw at tt

  pub thread_at-Live :
      (p : Place) → (s t : Sender M) → s.place ≡ p → thread_at M p s ≡ some t → IsLive t
  unfolding thread_at
  thread_at-Live outer s t at e =
      subst IsLive (some-injective _ t e) (test_outer-Live s.running s refl)
  thread_at-Live testing s t at e =
      subst IsLive (some-injective _ t e) (test_wait-Live s.deque s.running s refl)
  thread_at-Live parking s t at e = subst IsLive (some-injective _ t e) tt
  thread_at-Live parked s t at e = absurd (none-ne-some t e)
  thread_at-Live sending s t at e =
      subst IsLive (some-injective _ t e) (send_next-Live s.temp_msg_queue s at)
  thread_at-Live returned s t at e = absurd (none-ne-some t e)

  enqueue_on-Live :
      (p : Place)
      → (m : M) (s t : Sender M) → Live p s.running
      → enqueue_on M m s p ≡ some t
      → IsLive t
  unfolding enqueue_on woken
  enqueue_on-Live outer m s t h e = subst IsLive (some-injective _ t e) tt
  enqueue_on-Live testing m s t h e = subst IsLive (some-injective _ t e) tt
  enqueue_on-Live parking m s t h e = absurd (none-ne-some t e)
  enqueue_on-Live parked m s t h e = subst IsLive (some-injective _ t e) tt
  enqueue_on-Live sending m s t h e = subst IsLive (some-injective _ t e) tt
  enqueue_on-Live returned m s t h e = subst IsLive (some-injective _ t e) h

  close_at-Live :
      (c : Closing) (p : Place)
      → (s t : Sender M) → s.place ≡ p
      → Live p s.running
      → close_at M c p s ≡ some t
      → IsLive t
  unfolding close_at
  close_at-Live not_closed p s t at h e = subst IsLive (some-injective _ t e) (Live-false s.place)
  close_at-Live stopped p s t at h e =
      subst IsLive (some-injective _ t e) (Live-woken p s.running h)
  close_at-Live notified p s t at h e = subst IsLive (some-injective _ t e) (rw at h)
  close_at-Live socket_closed returned s t at h e = subst IsLive (some-injective _ t e) (rw at h)
  close_at-Live socket_closed outer s t at h e = absurd (none-ne-some t e)
  close_at-Live socket_closed testing s t at h e = absurd (none-ne-some t e)
  close_at-Live socket_closed parking s t at h e = absurd (none-ne-some t e)
  close_at-Live socket_closed parked s t at h e = absurd (none-ne-some t e)
  close_at-Live socket_closed sending s t at h e = absurd (none-ne-some t e)
  close_at-Live joined p s t at h e = absurd (none-ne-some t e)

  Step-Live : {s t : Sender M} {new : List M} → IsLive s → Step s new t → IsLive t
  unfolding thread_step close_step enqueue_msg_send
  Step-Live {s = s} h (enqueues m {t = t} e) = enqueue_on-Live s.place m s t h e
  Step-Live {s = s} h (runs {t = t} e) = thread_at-Live s.place s t refl e
  Step-Live {s = s} h (closes {t = t} e) = close_at-Live s.closing s.place s t refl h e
  Step-Live {s = s} h (wakes_by_chance at) = tt

  pub Reach-Live : {s : Sender M} {all : List M} → Reach (construct M) all s → IsLive s
  unfolding construct
  Reach-Live here = tt
  Reach-Live (next r step e) = Step-Live (Reach-Live r) step
