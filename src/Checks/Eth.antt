-- ===== src/Checks/Eth.antt =====
-- Runs of the Ethernet drivers.
use drivebrain_software.Base.{
  ℕ, ◌+◌, ◌*◌, ◌≡◌, refl, arith, Bool, true, false, not, List, [], ◌∷◌, ◌++◌, some, map, length,
}
use drivebrain_software.Eth.Send.{
  Sender, testing, sending, not_closed, construct, woken, enqueue_msg_send, enqueue_on, thread_step,
  thread_at, test_outer, test_wait, send_next, close_step, close_at, stopped, socket_closed,
}
use drivebrain_software.Eth.Steps.{Step, enqueues, runs, closes, Reach, here, next}
use drivebrain_software.Eth.Channel.{empty, ChannelReach}
use drivebrain_software.Eth.Refines.{view, sender_refines}
use drivebrain_software.Eth.Drain.{run_thread, AllSent, run_thread-sends_all}
use drivebrain_software.Eth.Stuck.{HasEnded, destructor_ends}
use drivebrain_software.Eth.Buffer.{Socket, send_in_turn, send_batch, transmit, take, datagrams_lem}
use drivebrain_software.Eth.Receive.{
  Completion, datagram, error, Receiver, complete_all, before_error, has_error, destruct,
  complete_all-construct,
}
use drivebrain_software.Eth.Receive

abbrev started : Sender ℕ
started = record {
  running = true;
  deque = [];
  temp_msg_queue = [];
  place = testing;
  closing = not_closed;
  sent = [];
}

abbrev two_queued : Sender ℕ
two_queued = record started { deque = 7 ∷ 8 ∷ [] }

abbrev two_in_hand : Sender ℕ
two_in_hand = record started { temp_msg_queue = 7 ∷ 8 ∷ []; place = sending }

abbrev one_sent : Sender ℕ
one_sent = record started { temp_msg_queue = 8 ∷ []; place = sending; sent = 7 ∷ [] }

starts_first : Step (construct ℕ) [] started
unfolding construct thread_step thread_at test_outer
starts_first = runs refl

enqueues_seven : Step started (7 ∷ []) (record started { deque = 7 ∷ [] })
unfolding enqueue_msg_send enqueue_on woken
enqueues_seven = enqueues 7 refl

enqueues_eight : Step (record started { deque = 7 ∷ [] }) (8 ∷ []) two_queued
unfolding enqueue_msg_send enqueue_on woken
enqueues_eight = enqueues 8 refl

takes_both : Step two_queued [] two_in_hand
unfolding thread_step thread_at test_wait
takes_both = runs refl

sends_one : Step two_in_hand [] one_sent
unfolding thread_step thread_at send_next
sends_one = runs refl

reaches : Reach (construct ℕ) (7 ∷ 8 ∷ []) one_sent
reaches =
    next
      (next (next (next (next here starts_first refl) enqueues_seven refl) enqueues_eight refl)
        takes_both refl)
      sends_one refl

sender_refines_example :
    ChannelReach (empty ℕ) (7 ∷ 8 ∷ []) (view one_sent)
    × (one_sent.sent ++ (one_sent.temp_msg_queue ++ one_sent.deque) ≡ 7 ∷ 8 ∷ [])
sender_refines_example = sender_refines reaches

run_thread-sends_all_example :
    AllSent
      (7 ∷ 8 ∷ [])
      (run_thread (4 * length one_sent.deque + length one_sent.temp_msg_queue + 4) one_sent)
run_thread-sends_all_example = run_thread-sends_all reaches refl

one_sent-stopped :
    Reach (construct ℕ) (7 ∷ 8 ∷ []) (record one_sent { running = false; closing = stopped })
unfolding close_step close_at
one_sent-stopped = next reaches (closes refl) refl

destructor_ends_example :
    let s = record one_sent { running = false; closing = stopped } in
    (t : Sender ℕ) × (u : Sender ℕ) × (close_step ℕ s ≡ some t)
    × (close_step ℕ t ≡ some u)
    × (u.closing ≡ socket_closed)
    × HasEnded s (run_thread (length s.temp_msg_queue + 3) u)
destructor_ends_example = destructor_ends one_sent-stopped refl refl cc

abbrev socket : Socket
socket = record { send_buffer = 0 ∷ 0 ∷ 0 ∷ []; pending = []; datagrams = [] }

abbrev small : List ℕ
small = 1 ∷ []

abbrev large : List ℕ
large = 2 ∷ 3 ∷ []

datagrams_lem_example :
    ((t : Socket) × (send_in_turn (small ∷ large ∷ []) socket ≡ some t)
      × (t.datagrams ≡ small ∷ large ∷ []))
    × ((t : Socket) × (send_batch (small ∷ large ∷ []) socket ≡ some t)
        × ((transmit t).datagrams ≡ map (λ m. take (length m) large) (small ∷ []) ++ (large ∷ [])))
datagrams_lem_example =
    datagrams_lem (small ∷ []) large socket refl (omega arith, tt) (omega arith) (omega arith, tt)

-- A parser of one number; an empty datagram is malformed.
abbrev parse : List ℕ → ℕ × Bool
parse [] = (0, false)
parse (b ∷ bs) = (b, true)

abbrev completions : List Completion
completions = datagram (5 ∷ []) ∷ datagram [] ∷ error ∷ datagram (6 ∷ []) ∷ []

complete_all-construct_example :
    let r = complete_all ℕ parse completions (Receive.construct ℕ parse 0) in
    (r.handled ≡ map (λ bytes. (parse bytes).0) (before_error completions))
    × (r.receiving ≡ not (has_error completions))
    × (r.running ≡ true)
    × ((complete_all ℕ parse (datagram (9 ∷ []) ∷ []) (destruct ℕ parse r)).handled ≡ r.handled)
complete_all-construct_example =
    complete_all-construct ℕ parse 0 completions (datagram (9 ∷ []) ∷ [])
