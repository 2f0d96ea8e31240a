-- ===== src/Eth/Send.antt =====
-- The class `ETHSendComms`: its queue, its thread and its destructor. A message is of any type.
use drivebrain_software.Base.{Bool, true, false, List, [], ◌∷◌, ◌++◌, Option, none, some}

-- Where the thread that runs `_handle_send_msg_from_queue` stands: at the test of the outer loop,
-- before the predicate of the wait, behind it with the lock still held, asleep, in the loop over
-- `temp_msg_queue`, or returned.
pub data Place : Type 0 where
  outer : Place
  testing : Place
  parking : Place
  parked : Place
  sending : Place
  returned : Place

-- How far the destructor is: not called, `_running` written, waiters notified, socket closed, thread
-- joined.
pub data Closing : Type 0 where
  not_closed : Closing
  stopped : Closing
  notified : Closing
  socket_closed : Closing
  joined : Closing

-- `cv.notify_all`: a thread that sleeps tests the predicate again; any other does not notice.
unfoldable pub woken : Place → Place
woken parked = testing
woken outer = outer
woken testing = testing
woken parking = parking
woken sending = sending
woken returned = returned

module _ (M : Type 0) where
  pub record Sender : Type 0 where
    pub running : Bool
    -- `_send_msg_queue.deque` and `temp_msg_queue`
    pub deque : List M
    pub temp_msg_queue : List M
    pub place : Place
    pub closing : Closing
    -- The messages given to `_send_message`, oldest first; from `socket_closed` on, what it
    -- writes meets a closed socket.
    pub sent : List M

  -- The constructor, which starts the thread.
  unfoldable pub construct : Sender
  construct = record {
    running = true;
    deque = [];
    temp_msg_queue = [];
    place = outer;
    closing = not_closed;
    sent = [];
  }

  -- The critical section of `enqueue_msg_send`. It waits while the thread holds the lock.
  unfoldable pub enqueue_on : M → Sender → Place → Option Sender
  unfolding woken
  enqueue_on m s parking = none
  enqueue_on m s place = some (record s { deque = s.deque ++ (m ∷ []); place = woken place })

  unfoldable pub enqueue_msg_send : M → Sender → Option Sender
  unfolding enqueue_on
  enqueue_msg_send m s = enqueue_on m s s.place

  -- The predicate of the wait, `!deque.empty() || !_running`, and what follows when it holds.
  unfoldable pub test_wait : List M → Bool → Sender → Sender
  test_wait [] true s = record s { place = parking }
  test_wait deque false s = record s { place = returned }
  test_wait (m ∷ ms) true s = record s {
    deque = s.temp_msg_queue;
    temp_msg_queue = m ∷ ms;
    place = sending;
  }

  -- The loop over `temp_msg_queue`, whose end clears it.
  unfoldable pub send_next : List M → Sender → Sender
  send_next [] s = record s { place = outer }
  send_next (m ∷ ms) s = record s { sent = s.sent ++ (m ∷ []); temp_msg_queue = ms }

  unfoldable pub test_outer : Bool → Sender → Sender
  test_outer true s = record s { place = testing }
  test_outer false s = record s { place = returned }

  -- One step of `_handle_send_msg_from_queue`; `none` while it sleeps, and when it has returned.
  unfoldable pub thread_at : Place → Sender → Option Sender
  unfolding test_wait send_next test_outer
  thread_at outer s = some (test_outer s.running s)
  thread_at testing s = some (test_wait s.deque s.running s)
  thread_at parking s = some (record s { place = parked })
  thread_at parked s = none
  thread_at sending s = some (send_next s.temp_msg_queue s)
  thread_at returned s = none

  unfoldable pub thread_step : Sender → Option Sender
  unfolding thread_at
  thread_step s = thread_at s.place s

  -- The destructor: `_running` is written and the waiters are notified without the lock; then the
  -- socket is closed, and the join returns once the thread has.
  unfoldable pub close_at : Closing → Place → Sender → Option Sender
  unfolding woken
  close_at not_closed place s = some (record s { running = false; closing = stopped })
  close_at stopped place s = some (record s { place = woken place; closing = notified })
  close_at notified place s = some (record s { closing = socket_closed })
  close_at socket_closed returned s = some (record s { closing = joined })
  close_at socket_closed place s = none
  close_at joined place s = none

  unfoldable pub close_step : Sender → Option Sender
  unfolding close_at
  close_step s = close_at s.closing s.place s
