-- ===== src/Eth/Receive.antt =====
-- The class `ETHRecvComms`: one message object, parsed anew for each datagram. The message's type
-- and its parser are protobuf's; `handler` is the function that the constructor is given.
use mathlib.Core.List.{append_assoc, append-nil}
use drivebrain_software.Base.{
  ℕ, ◌≡◌, refl, sym, ◌∙◌, Bool, true, false, not, List, [], ◌∷◌, ◌++◌, map, if◌then◌else◌, arith,
}

-- What a completed `async_receive_from` brings: the datagram, or an error.
pub data Completion : Type 0 where
  datagram : List ℕ → Completion
  error : Completion

-- The datagrams before the first error.
unfoldable pub before_error : List Completion → List (List ℕ)
before_error [] = []
before_error (error ∷ cs) = []
before_error (datagram bytes ∷ cs) = bytes ∷ before_error cs

unfoldable pub has_error : List Completion → Bool
has_error [] = false
has_error (error ∷ cs) = true
has_error (datagram bytes ∷ cs) = has_error cs

-- `ParseFromArray` leaves the message with what it could read, and says whether it read it all.
module _ (M : Type 0) (parse : List ℕ → M × Bool) where
  pub record Receiver : Type 0 where
    pub running : Bool
    -- Whether a receive is waiting on the socket.
    pub receiving : Bool
    pub received_msg : M
    -- The messages that the handler was called with, oldest first.
    pub handled : List M

  -- `_start_receive`
  unfoldable pub start_receive : Receiver → Receiver
  start_receive r = record r { receiving = true }

  -- The constructor, with a message as `std::make_shared` makes it.
  unfoldable pub construct : M → Receiver
  unfolding start_receive
  construct fresh =
      start_receive
        (record { running = true; receiving = false; received_msg = fresh; handled = [] })

  -- `_handle_receive`. The result of `ParseFromArray` is not looked at.
  unfoldable pub handle_receive : Completion → Receiver → Receiver
  unfolding start_receive
  handle_receive error r = r
  handle_receive (datagram bytes) r =
      if r.running
      then start_receive (record r {
        received_msg = (parse bytes).0;
        handled = r.handled ++ ((parse bytes).0 ∷ []);
      })
      else r

  -- The network thread: a waiting receive completes, and its handler runs.
  unfoldable pub complete : Completion → Receiver → Receiver
  unfolding handle_receive
  complete c r = if r.receiving then handle_receive c (record r { receiving = false }) else r

  unfoldable pub complete_all : List Completion → Receiver → Receiver
  unfolding complete
  complete_all [] r = r
  complete_all (c ∷ cs) r = complete_all cs (complete c r)

  -- The destructor's store; closing the socket then completes a waiting receive with an error.
  unfoldable pub destruct : Receiver → Receiver
  destruct r = record r { running = false }

  abbrev At : Bool → M → List M → Receiver
  At receiving msg handled = record {
    running = true;
    receiving = receiving;
    received_msg = msg;
    handled = handled;
  }

  complete_all_deaf :
      (cs : List Completion) (msg : M) (handled : List M)
      → complete_all cs (At false msg handled) ≡ At false msg handled
  unfolding complete_all complete
  complete_all_deaf [] msg handled = refl
  complete_all_deaf (c ∷ cs) msg handled = complete_all_deaf cs msg handled

  abbrev Received : List Completion → List M → Receiver → Type 0
  Received cs handled r =
      (r.handled ≡ handled ++ map (λ bytes. (parse bytes).0) (before_error cs))
      × (r.receiving ≡ not (has_error cs))
      × (r.running ≡ true)

  complete_all-Received :
      (cs : List Completion) (msg : M) (handled : List M)
      → Received cs handled (complete_all cs (At true msg handled))
  unfolding complete_all complete before_error has_error
  complete_all-Received [] msg handled = (sym (append-nil handled), refl, refl)
  complete_all-Received (error ∷ cs) msg handled =
      rw (complete_all_deaf cs msg handled) (sym (append-nil handled), refl, refl)
  complete_all-Received (datagram bytes ∷ cs) msg handled =
      let (all, waits, runs) =
        complete_all-Received cs (parse bytes).0 (handled ++ ((parse bytes).0 ∷ [])) in
      (
        all
            ∙ append_assoc handled ((parse bytes).0 ∷ [])
                (map (λ (b : List ℕ). (parse b).0) (before_error cs)),
        waits,
        runs,
      )

  complete-stopped :
      (c : Completion) (r : Receiver)
      → r.running ≡ false
      → ((complete c r).running ≡ false) × ((complete c r).handled ≡ r.handled)
  unfolding complete
  complete-stopped error r off = ground arith
  complete-stopped (datagram bytes) r off = ground arith

  complete_all-stopped :
      (cs : List Completion) (r : Receiver)
      → r.running ≡ false
      → (complete_all cs r).handled ≡ r.handled
  unfolding complete_all
  complete_all-stopped [] r off = refl
  complete_all-stopped (c ∷ cs) r off =
      let (off', same) = complete-stopped c r off in
      complete_all-stopped cs (complete c r) off' ∙ same

  -- From the constructor on, the handler is called once for each datagram before the first error, in
  -- order, with what the parser could read of it, be the datagram well-formed or not. After an error
  -- of any kind nothing is received any more, although the receiver is still running. Once the
  -- destructor has begun, the handler is not called, whatever completes.
  pub complete_all-construct :
      (fresh : M) (cs later : List Completion)
      → let r = complete_all cs (construct fresh) in
        (r.handled ≡ map (λ bytes. (parse bytes).0) (before_error cs))
        × (r.receiving ≡ not (has_error cs))
        × (r.running ≡ true)
        × ((complete_all later (destruct r)).handled ≡ r.handled)
  unfolding construct destruct
  complete_all-construct fresh cs later =
      let (all, waits, runs) = complete_all-Received cs fresh [] in
      (
        all,
        waits,
        runs,
        complete_all-stopped later (destruct (complete_all cs (construct fresh))) refl,
      )
