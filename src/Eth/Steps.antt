-- ===== src/Eth/Steps.antt =====
-- The sender among the threads that use it, in any order of their steps.
use drivebrain_software.Base.{◌≡◌, List, [], ◌∷◌, ◌++◌, some}
use drivebrain_software.Eth.Send.{
  Sender, parked, testing, enqueue_msg_send, thread_step, close_step,
}

-- One step, with the messages that it puts into the queue. A thread that sleeps may wake up without
-- a notification.
pub data Step {M : Type 0} (s : Sender M) : List M → Sender M → Type 0 where
  enqueues : (m : M) {t : Sender M} → enqueue_msg_send M m s ≡ some t → Step s (m ∷ []) t
  runs : {t : Sender M} → thread_step M s ≡ some t → Step s [] t
  closes : {t : Sender M} → close_step M s ≡ some t → Step s [] t
  wakes_by_chance : s.place ≡ parked → Step s [] (record s { place = testing })

-- Any number of steps, with all the messages put into the queue on the way, in order.
pub data Reach {M : Type 0} (s : Sender M) : List M → Sender M → Type 0 where
  here : Reach s [] s
  next :
      {t u : Sender M} {ms new all : List M}
      → Reach s ms t
      → Step t new u
      → all ≡ ms ++ new
      → Reach s all u
