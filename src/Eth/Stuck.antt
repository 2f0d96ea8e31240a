-- ===== src/Eth/Stuck.antt =====
-- The destructor of the sender, which writes `_running` and notifies without the lock.
use mathlib.Core.List.{append_assoc, append-nil}
use drivebrain_software.Base.{
  ℕ, zero, suc, ◌+◌, ◌≡◌, ◌≢◌, refl, ap, sym, ◌∙◌, subst, false, List, [], ◌∷◌, ◌++◌, none, some,
  length, arith,
}
use drivebrain_software.Eth.Send.{
  Sender, Place, outer, sending, returned, joined, construct, send_next, test_outer, test_wait,
  testing, parking, parked, not_closed, stopped, notified, socket_closed, woken, thread_step,
  thread_at, close_step, close_at,
}
use drivebrain_software.Eth.Steps.{runs, closes, Reach, here, next}
use drivebrain_software.Eth.Refines.{Settled, Reach-Simulates}
use drivebrain_software.Eth.Drain.{run_thread}

-- `k` and one for each message.
abbrev rounds : {M : Type 0} → List M → ℕ → ℕ
rounds [] k = k
rounds (m ∷ ms) k = suc (rounds ms k)

rounds_lem : {M : Type 0} (ms : List M) (k : ℕ) → rounds ms k ≡ length ms + k
rounds_lem [] k = omega arith
rounds_lem (m ∷ ms) k = omega (arith, rounds_lem ms k)

module _ {M : Type 0} where
  -- The sender after the destructor's notification, with the thread asleep.
  abbrev pub slept_through : Sender M → Sender M
  slept_through s = record s { running = false; place = parked; closing = socket_closed }

  -- If the destructor begins just when the thread has tested the predicate and not yet gone to
  -- sleep, its write and its notification can both come before the sleep, since they do not need the
  -- lock. Then the destructor waits for a thread that sleeps: neither has a step left, and only
  -- a wake-up without a notification, or another message, could end it.
  pub destructor_can_hang :
      (s : Sender M)
      → s.place ≡ parking
      → s.closing ≡ not_closed
      → Reach s [] (slept_through s)
        × (thread_step M (slept_through s) ≡ none)
        × (close_step M (slept_through s) ≡ none)
  unfolding thread_step thread_at close_step close_at woken
  destructor_can_hang s at begun = (
    next
        (next
          (next (next here (closes {t = first} (rw (begun, at))) refl) (closes {t = second} (rw at))
            refl)
          (closes {t = third} (rw at)) refl)
        (runs {t = slept_through s} (rw at)) refl,
    refl,
    refl,
  )
    where
      first : Sender M
      first = record s { running = false; closing = stopped }

      second : Sender M
      second = record s { running = false; closing = notified }

      third : Sender M
      third = record s { running = false; closing = socket_closed }

  -- The thread has returned: the batch in hand is sent, the queue is left, and the join succeeds.
  abbrev pub HasEnded : Sender M → Sender M → Type 0
  HasEnded s t =
      (t.place ≡ returned)
      × (t.sent ≡ s.sent ++ s.temp_msg_queue)
      × (t.deque ≡ s.deque)
      × (close_step M t ≡ some (record t { closing = joined }))

  abbrev Shut : Sender M → Place → List M → List M → Sender M
  Shut s p temp sent = record s {
    running = false;
    closing = socket_closed;
    place = p;
    temp_msg_queue = temp;
    sent = sent;
  }

  run_returned :
      (n : ℕ) (s : Sender M) (sent : List M)
      → run_thread n (Shut s returned [] sent) ≡ Shut s returned [] sent
  unfolding run_thread thread_step thread_at
  run_returned zero s sent = refl
  run_returned (suc n) s sent = refl

  run_sending :
      (temp : List M) (n : ℕ) (s : Sender M) (sent : List M)
      → run_thread (rounds temp (suc (suc n))) (Shut s sending temp sent)
        ≡ Shut s returned [] (sent ++ temp)
  unfolding run_thread thread_step thread_at send_next test_outer
  run_sending [] n s sent = run_returned n s sent ∙ ap (Shut s returned []) (sym (append-nil sent))
  run_sending (m ∷ ms) n s sent =
      run_sending ms n s (sent ++ (m ∷ []))
      ∙ ap (Shut s returned []) (append_assoc sent (m ∷ []) ms)

  test_wait_off :
      (deque : List M) (s : Sender M) → test_wait M deque false s ≡ record s { place = returned }
  unfolding test_wait
  test_wait_off [] s = refl
  test_wait_off (m ∷ ms) s = refl

  run_testing :
      (s : Sender M) (sent : List M)
      → run_thread 3 (Shut s testing [] sent) ≡ Shut s returned [] sent
  unfolding run_thread thread_step thread_at
  run_testing s sent =
      ap (run_thread 2) (test_wait_off s.deque (Shut s testing [] sent)) ∙ run_returned 2 s sent

  -- Outside the loop over the batch there is none.
  run_idle :
      (s : Sender M) (p : Place) (temp : List M)
      → temp ≡ []
      → run_thread 3 (Shut s p [] s.sent) ≡ Shut s returned [] s.sent
      → run_thread (rounds temp 3) (Shut s p temp s.sent) ≡ Shut s returned [] (s.sent ++ temp)
  run_idle s p temp empty ends =
      subst (λ l. run_thread (rounds l 3) (Shut s p l s.sent) ≡ Shut s returned [] (s.sent ++ l))
        (sym empty) (ends ∙ ap (Shut s returned []) (sym (append-nil s.sent)))

  run_shut :
      (p : Place)
      → (temp : List M) (s : Sender M) → p ≢ parking
      → Settled p temp s.deque
      → run_thread (rounds temp 3) (Shut s (woken p) temp s.sent)
        ≡ Shut s returned [] (s.sent ++ temp)
  unfolding woken run_thread thread_step thread_at test_outer
  run_shut outer temp s other empty = run_idle s outer temp empty (run_returned 2 s s.sent)
  run_shut testing temp s other empty = run_idle s testing temp empty (run_testing s s.sent)
  run_shut parking temp s other settled = absurd (other refl)
  run_shut parked temp s other settled = run_idle s testing temp settled.0 (run_testing s s.sent)
  run_shut sending temp s other settled = run_sending temp 1 s s.sent
  run_shut returned temp s other empty = run_idle s returned temp empty (run_returned 3 s s.sent)

  -- At any other place the destructor ends: if the thread is not between its test and its sleep when
  -- it is notified, then the destructor closes the socket, and the thread, left to itself, returns
  -- within one step for each message in hand and three more. It has given the batch in hand to
  -- `_send_message`, whose socket is closed by then; the messages in the queue are never given to it,
  -- and the join succeeds.
  pub destructor_ends :
      {s : Sender M} {all : List M}
      → Reach (construct M) all s
      → s.closing ≡ stopped
      → s.running ≡ false
      → s.place ≢ parking
      → (t : Sender M) × (u : Sender M) × (close_step M s ≡ some t)
        × (close_step M t ≡ some u)
        × (u.closing ≡ socket_closed)
        × HasEnded s (run_thread (length s.temp_msg_queue + 3) u)
  unfolding close_step close_at
  destructor_ends {s = s} r begun off other = (
    record s { place = woken s.place; closing = notified },
    record s { place = woken s.place; closing = socket_closed },
    rw begun,
    refl,
    refl,
    subst (HasEnded s) (sym run) (refl, refl, refl, refl),
  )
    where
      run :
          run_thread
            (length s.temp_msg_queue + 3)
            (record s { place = woken s.place; closing = socket_closed })
          ≡ Shut s returned [] (s.sent ++ s.temp_msg_queue)
      run =
          ap (λ n. run_thread n (record s { place = woken s.place; closing = socket_closed }))
            (sym (rounds_lem s.temp_msg_queue 3))
          ∙ ap
              (λ b.
                run_thread (rounds s.temp_msg_queue 3)
                  (record s { running = b; place = woken s.place; closing = socket_closed }))
              off
          ∙ run_shut s.place s.temp_msg_queue s other (Reach-Simulates r).0
