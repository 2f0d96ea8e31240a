-- ===== src/Sim/Defs.antt =====
-- The class `SimComms`. The socket and the protobuf library are other people's code: what a receive
-- brings is an input, and the look-up of a type and its parser are parameters.
use drivebrain_software.Base.{
  Bool, true, false, String, List, [], ◌∷◌, Option, none, some, if◌then◌else◌,
}

-- What `m.recv` does within its 100 ms: nothing came, the context was terminated (`ETERM`), another
-- error, or a message in parts.
pub data Recv : Type 0 where
  timed_out : Recv
  terminated : Recv
  failed : Recv
  multipart : List String → Recv

-- `D` is a message descriptor, `M` a message, and `S` what `core::log` and the state tracker keep;
-- `consume` calls the two with a message.
module _ (D M S : Type 0) (find_message_type_by_name : String → Option D)
    (parse_from_array : D → String → Option M) (consume : M → S → S) where
  unfoldable pub parse_by_name : String → String → Option M
  parse_by_name type_name body = elim (find_message_type_by_name type_name) [
    | none ↦ none
    | some desc ↦ parse_from_array desc body
  ]

  -- `if (msg)`
  unfoldable pub hand_on : Option M → S → S
  hand_on none s = s
  hand_on (some msg) s = consume msg s

  -- A body of the loop in `_veh_recv_loop` after a message came: less than two parts are an error,
  -- and parts after the second are not looked at.
  unfoldable pub dispatch : List String → S → S
  unfolding parse_by_name hand_on
  dispatch [] s = s
  dispatch (one ∷ []) s = s
  dispatch (type_name ∷ body ∷ more) s = hand_on (parse_by_name type_name body) s

  -- `_veh_recv_loop`. Each round begins with the value of `_running` that it reads.
  unfoldable pub veh_recv_loop : List (Bool × Recv) → S → S
  unfolding dispatch
  veh_recv_loop [] s = s
  veh_recv_loop ((false, r) ∷ rest) s = s
  veh_recv_loop ((true, timed_out) ∷ rest) s = veh_recv_loop rest s
  veh_recv_loop ((true, failed) ∷ rest) s = veh_recv_loop rest s
  veh_recv_loop ((true, terminated) ∷ rest) s = s
  veh_recv_loop ((true, multipart parts) ∷ rest) s = veh_recv_loop rest (dispatch parts s)

pub record Link : Type 0 where
  pub running : Bool
  -- Whether `_veh_recv_thread` is joinable, and `_veh_data_recv_socket` bound.
  pub thread : Bool
  pub bound : Bool

-- The constructor, with the result of `_setup_recv_socket`; `none` is the exception.
unfoldable pub construct : (set_up : Bool) → Option Link
construct set_up =
    if set_up then some (record { running = true; thread = false; bound = true }) else none

-- `start` always answers true. To assign to a thread that has not been joined ends the program:
-- `none`.
unfoldable pub start : Link → Option (Link × Bool)
start l = if l.thread then none else some (record l { thread = true }, true)

-- `close`. The join returns, since a round of the loop ends within 100 ms and then sees `_running`.
unfoldable pub close : Link → Link × Bool
close l =
    if l.running
    then (record { running = false; thread = false; bound = false }, true)
    else (l, false)

-- `delete`, as `destroy` calls it: the destructor of a thread that has not been joined ends the
-- program.
unfoldable pub delete_link : Link → Option (Unit {0})
delete_link l = if l.thread then none else some tt
