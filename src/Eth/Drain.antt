-- ===== src/Eth/Drain.antt =====
-- While the sender is not being destroyed, its thread sends whatever is enqueued.
use mathlib.Core.List.{append-nil}
use drivebrain_software.Base.{
  ℕ, zero, suc, ◌+◌, ◌*◌, ◌≤◌, ◌<◌, ◌≡◌, refl, ◌⊎◌, inl, inr, ap, sym, ◌∙◌, subst, arith, Bool,
  true, false, List, [], ◌∷◌, ◌++◌, none, some, length,
}
use drivebrain_software.Eth.Send.{
  Sender, Place, outer, testing, parking, parked, sending, returned, construct, thread_step,
  thread_at, test_wait, send_next, test_outer,
}
use drivebrain_software.Eth.Steps.{runs, Reach}
use drivebrain_software.Eth.Channel.{contents, ChannelStep-contents, ChannelReach-contents}
use drivebrain_software.Eth.Live.{Live, IsLive, Reach-Live, thread_at-Live}
use drivebrain_software.Eth.Refines.{view, IsSettled, Settled, Step-Simulates, Reach-Simulates}

-- The thread's way to its next sleep: this falls by one at least with each of its steps.
abbrev rank : Place → ℕ
rank outer = 3
rank testing = 2
rank parking = 1
rank parked = 0
rank sending = 4
rank returned = 0

module _ {M : Type 0} where
  -- The thread's steps alone, `n` at most.
  unfoldable pub run_thread : ℕ → Sender M → Sender M
  run_thread zero s = s
  run_thread (suc n) s = elim (thread_step M s) [ none ↦ s | some t ↦ run_thread n t ]

  abbrev to_go : Sender M → ℕ
  to_go s = rank s.place + 4 * length s.deque + length s.temp_msg_queue

  -- The thread is still running and has come nearer.
  abbrev Nearer : Sender M → Sender M → Type 0
  Nearer s t = (to_go t < to_go s) × (t.running ≡ true)

  test_outer-Nearer :
      (running : Bool)
      → (s : Sender M) → running ≡ true
      → s.place ≡ outer
      → s.running ≡ true
      → Nearer s (test_outer M running s)
  unfolding test_outer
  test_outer-Nearer true s e at on = (rw at (omega arith), on)
  test_outer-Nearer false s e at on = cc

  test_wait-Nearer :
      (deque : List M) (running : Bool)
      → (s : Sender M) → running ≡ true
      → s.place ≡ testing
      → s.deque ≡ deque
      → s.temp_msg_queue ≡ []
      → s.running ≡ true
      → Nearer s (test_wait M deque running s)
  unfolding test_wait
  test_wait-Nearer [] true s e at queue none_left on = (rw at (omega arith), on)
  test_wait-Nearer deque false s e at queue none_left on = cc
  test_wait-Nearer (m ∷ ms) true s e at queue none_left on =
      (rw (at, queue, none_left) (omega arith), on)

  send_next-Nearer :
      (temp : List M)
      → (s : Sender M) → s.place ≡ sending
      → s.temp_msg_queue ≡ temp
      → s.running ≡ true
      → Nearer s (send_next M temp s)
  unfolding send_next
  send_next-Nearer [] s at batch on = (rw at (omega arith), on)
  send_next-Nearer (m ∷ ms) s at batch on = (rw (at, batch) (omega arith), on)

  thread_at-Nearer :
      (p : Place)
      → (s : Sender M) → s.place ≡ p
      → Settled p s.temp_msg_queue s.deque
      → Live p s.running
      → s.running ≡ true
      → (p ≡ parked) ⊎ ((t : Sender M) × (thread_at M p s ≡ some t) × Nearer s t)
  unfolding thread_at
  thread_at-Nearer outer s at settled live on =
      inr (test_outer M s.running s, refl, test_outer-Nearer s.running s on at on)
  thread_at-Nearer testing s at settled live on = inr (
    test_wait M s.deque s.running s,
    refl,
    test_wait-Nearer s.deque s.running s on at refl settled on,
  )
  thread_at-Nearer parking s at settled live on =
      inr (record s { place = parked }, refl, (rw at (omega arith), on))
  thread_at-Nearer parked s at settled live on = inl refl
  thread_at-Nearer sending s at settled live on =
      inr (send_next M s.temp_msg_queue s, refl, send_next-Nearer s.temp_msg_queue s at refl on)
  thread_at-Nearer returned s at settled live on = cc

  -- The thread sleeps, and `all` has been sent.
  abbrev pub AllSent : List M → Sender M → Type 0
  AllSent all t = (t.place ≡ parked) × (t.sent ≡ all)

  sleeping : (s : Sender M) → s.place ≡ parked → IsSettled s → AllSent (contents (view s)) s
  sleeping s at settled =
      let (batch, queue) = rw at at settled in
      (at, sym (ap (λ l. s.sent ++ l) (rw (batch, queue)) ∙ append-nil s.sent))

  run_thread_next :
      (n : ℕ) (s t : Sender M) → thread_step M s ≡ some t → run_thread (suc n) s ≡ run_thread n t
  unfolding run_thread
  run_thread_next n s t e = rw (e, run_thread)

  asleep : (s : Sender M) → s.place ≡ parked → thread_step M s ≡ none
  unfolding thread_step thread_at
  asleep s at = rw (at, thread_at)

  run_thread_asleep : (n : ℕ) (s : Sender M) → s.place ≡ parked → run_thread n s ≡ s
  unfolding run_thread
  run_thread_asleep zero s at = refl
  run_thread_asleep (suc n) s at = rw (asleep s at, run_thread)

  run_thread-AllSent :
      (n : ℕ) (s : Sender M)
      → to_go s ≤ n
      → IsSettled s
      → IsLive s
      → s.running ≡ true
      → AllSent (contents (view s)) (run_thread n s)
  unfolding thread_step
  run_thread-AllSent zero s enough settled live on =
      elim (thread_at-Nearer s.place s refl settled live on) [
        | inl at ↦ rw (run_thread_asleep zero s at) (sleeping s at settled)
        | inr (t, e, nearer) ↦ absurd (omega (arith, nearer.0))
      ]
  run_thread-AllSent (suc n) s enough settled live on =
      elim (thread_at-Nearer s.place s refl settled live on) [
        | inl at ↦ rw (run_thread_asleep (suc n) s at) (sleeping s at settled)
        | inr (t, e, near) ↦
            let (settled', one) = Step-Simulates {s = s} {t = t} settled (runs e) in
            let kept = ChannelStep-contents one ∙ append-nil (contents (view s)) in
            let later =
              run_thread-AllSent n t (omega (arith, near.0)) settled'
                (thread_at-Live s.place s t refl e) near.1 in
            rw (run_thread_next n s t e) (subst (λ l. AllSent l (run_thread n t)) kept later)
      ]

  -- Whatever was done with a sender before, as long as its destructor has not begun: its thread, left
  -- to itself, sleeps again within the number of steps given, four for each message in the queue, one
  -- for each in hand, and four more, and then every message ever enqueued has been sent, each once and in order.
  pub run_thread-sends_all :
      {s : Sender M} {all : List M}
      → Reach (construct M) all s
      → s.running ≡ true
      → AllSent all (run_thread (4 * length s.deque + length s.temp_msg_queue + 4) s)
  run_thread-sends_all {s = s} {all = all} r on =
      let (settled, walk) = Reach-Simulates r in
      subst (λ l. AllSent l (run_thread (4 * length s.deque + length s.temp_msg_queue + 4) s))
        (ChannelReach-contents walk)
        (run_thread-AllSent (4 * length s.deque + length s.temp_msg_queue + 4) s (bound s.place)
          settled (Reach-Live r) on)
    where
      bound :
          (p : Place)
          → rank p + 4 * length s.deque + length s.temp_msg_queue
            ≤ 4 * length s.deque + length s.temp_msg_queue + 4
      bound outer = omega arith
      bound testing = omega arith
      bound parking = omega arith
      bound parked = omega arith
      bound sending = omega arith
      bound returned = omega arith
