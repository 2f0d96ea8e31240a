-- ===== src/Logger/Drain.antt =====
-- The log thread after `stop_logging`: how `_handle_log_to_file` comes to its end.
use drivebrain_software.Base.{
  ℕ, zero, suc, ◌+◌, ◌≡◌, refl, ap, sym, ◌∙◌, subst, arith, false, List, [], ◌∷◌, ◌++◌, none, some,
  map, length,
}
use mathlib.Core.List.{append-nil, append_assoc, map-append}
use drivebrain_software.Logger.Defs.{
  RawMessage, Logger, Thread, absent, waiting, writing, finished, construct, stop_logging, join,
  join_on, thread_step, thread_at, wake, write_next, channel_id,
}
use drivebrain_software.Logger.Steps.{Reach}
use drivebrain_software.Logger.Conserve.{messages, HandsFree, Reach-Holds}

-- The thread's steps alone, `n` at most.
unfoldable pub run_thread : ℕ → Logger → Logger
run_thread zero s = s
run_thread (suc n) s = elim (thread_step s) [ none ↦ s | some t ↦ run_thread n t ]

-- `k` and one for each message.
abbrev after : List RawMessage → ℕ → ℕ
after [] k = k
after (m ∷ ms) k = suc (after ms k)

after_lem : (ms : List RawMessage) (k : ℕ) → after ms k ≡ length ms + k
after_lem [] k = omega arith
after_lem (m ∷ ms) k = omega (arith, after_lem ms k)

-- A message with the channel that it is written to.
abbrev pub tagged : Logger → RawMessage → ℕ × RawMessage
tagged s m = (channel_id s.name_to_id_map m.message_name, m)

-- The logger with its buffers and its thread replaced.
abbrev pub during :
    List (ℕ × RawMessage) → List RawMessage → List RawMessage → Thread → Logger → Logger
during done hand buffer w s = record s {
  written = done;
  write_buffer = hand;
  input_buffer = buffer;
  thread = w;
}

run_thread-writing :
    (s : Logger)
    → (ms buffer : List RawMessage) → (done : List (ℕ × RawMessage)) → (k : ℕ)
    → run_thread (after ms (suc k)) (during done ms buffer writing s)
      ≡ run_thread k (during (done ++ map (tagged s) ms) [] buffer waiting s)
unfolding run_thread thread_step thread_at write_next
run_thread-writing s [] buffer done k =
    ap (λ d. run_thread k (during d [] buffer waiting s)) (sym (append-nil done))
run_thread-writing s (m ∷ ms) buffer done k =
    run_thread-writing s ms buffer (done ++ (tagged s m ∷ [])) k
    ∙ ap (λ d. run_thread k (during d [] buffer waiting s))
        (append_assoc done (tagged s m ∷ []) (map (tagged s) ms))

run_thread-finished :
    (s : Logger) (done : List (ℕ × RawMessage)) (k : ℕ)
    → run_thread k (during done [] [] finished s) ≡ during done [] [] finished s
unfolding run_thread thread_step thread_at
run_thread-finished s done zero = refl
run_thread-finished s done (suc k) = refl

run_thread-ending :
    (s : Logger)
    → s.running ≡ false
    → (done : List (ℕ × RawMessage)) → (k : ℕ)
    → run_thread (suc k) (during done [] [] waiting s) ≡ during done [] [] finished s
unfolding run_thread thread_step thread_at wake
run_thread-ending s off done k = rw off (run_thread-finished (record s { running = false }) done k)

run_thread-waiting :
    (s : Logger)
    → s.running ≡ false
    → (buffer : List RawMessage) → (done : List (ℕ × RawMessage)) → (k : ℕ)
    → run_thread (suc (after buffer (suc (suc k)))) (during done [] buffer waiting s)
      ≡ during (done ++ map (tagged s) buffer) [] [] finished s
unfolding run_thread thread_step thread_at wake
run_thread-waiting s off [] done k =
    run_thread-ending s off done (suc (suc k))
    ∙ ap (λ d. during d [] [] finished s) (sym (append-nil done))
run_thread-waiting s off (m ∷ ms) done k =
    run_thread-writing s (m ∷ ms) [] done (suc k) ∙ run_thread-ending s off _ k

abbrev pub IsStarted : Thread → Type 0
IsStarted waiting = Unit
IsStarted writing = Unit
IsStarted _ = ⊥

-- The end of the thread: both buffers written out, in order, each message on its channel.
abbrev pub Drained : Logger → Logger → Type 0
Drained s t =
    (t ≡ during (s.written ++ map (tagged s) (s.write_buffer ++ s.input_buffer)) [] [] finished s)

pub drain :
    (w : Thread)
    → (s : Logger) → s.thread ≡ w
    → IsStarted w
    → HandsFree w s.write_buffer
    → s.running ≡ false
    → Drained s (run_thread (length s.write_buffer + length s.input_buffer + 4) s)
drain absent s at on free off = absurd on
drain waiting s at on free off =
    ap (λ n. run_thread n s) fuel
    ∙ ap (run_thread _) state
    ∙ run_thread-waiting s off s.input_buffer s.written 1
    ∙ ap (λ b. during (s.written ++ map (tagged s) (b ++ s.input_buffer)) [] [] finished s)
        (sym free)
  where
    fuel : length s.write_buffer + length s.input_buffer + 4 ≡ suc (after s.input_buffer 3)
    fuel = rw free (omega (arith, after_lem s.input_buffer 3))

    state : s ≡ during s.written [] s.input_buffer waiting s
    state =
        ap (λ b. during s.written b s.input_buffer s.thread s) free
        ∙ ap (λ w. during s.written [] s.input_buffer w s) at
drain writing s at on free off =
    ap (λ n. run_thread n s) fuel
    ∙ ap (run_thread _) (ap (λ w. during s.written s.write_buffer s.input_buffer w s) at)
    ∙ run_thread-writing s s.write_buffer s.input_buffer s.written rest
    ∙ run_thread-waiting s off s.input_buffer (s.written ++ map (tagged s) s.write_buffer) 0
    ∙ ap (λ d. during d [] [] finished s) joined
  where
    rest : ℕ
    rest = suc (after s.input_buffer 2)

    fuel :
        length s.write_buffer + length s.input_buffer + 4
        ≡ after s.write_buffer (suc (suc (after s.input_buffer 2)))
    fuel = omega (
      arith,
      after_lem s.input_buffer 2,
      after_lem s.write_buffer (suc (suc (after s.input_buffer 2))),
    )

    joined :
        (s.written ++ map (tagged s) s.write_buffer) ++ map (tagged s) s.input_buffer
        ≡ s.written ++ map (tagged s) (s.write_buffer ++ s.input_buffer)
    joined = rw (map-append, append_assoc)
drain finished s at on free off = absurd on

messages-tagged : (s : Logger) (ms : List RawMessage) → messages (map (tagged s) ms) ≡ ms
messages-tagged s [] = refl
messages-tagged s (m ∷ ms) = ap (λ l. m ∷ l) (messages-tagged s ms)

-- The thread has returned, all the messages are written, none are left, and a join succeeds.
abbrev pub IsComplete : List RawMessage → Logger → Type 0
IsComplete all t =
    (t.thread ≡ finished)
    × (messages t.written ≡ all)
    × (t.write_buffer ≡ [])
    × (t.input_buffer ≡ [])
    × (join t ≡ some (record t { thread = absent }))

-- Whatever was done with a new logger before, if its thread is running when `stop_logging` is
-- called, then the thread, left to itself, returns within as many steps as there are messages
-- waiting and four more; both buffers are then empty, all messages ever logged have been written,
-- in order, and the join succeeds.
pub stop_logging-writes_all :
    {s : Logger} {all : List RawMessage}
    → Reach construct all s
    → IsStarted s.thread
    → IsComplete all
        (run_thread (length s.write_buffer + length s.input_buffer + 4) (stop_logging s))
unfolding join join_on stop_logging
stop_logging-writes_all {s = s} {all = all} r on =
    let (h, free) = Reach-Holds r in
    subst (IsComplete all) (sym (drain s.thread (stop_logging s) refl on free refl))
      (refl, written h, refl, refl, refl)
  where
    written :
        messages s.written ++ (s.write_buffer ++ s.input_buffer) ≡ all
        → messages (s.written ++ map (tagged s) (s.write_buffer ++ s.input_buffer)) ≡ all
    written h = rw (map-append, messages-tagged s (s.write_buffer ++ s.input_buffer)) h
