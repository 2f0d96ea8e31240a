-- ===== src/Sim/Life.antt =====
-- Starting, closing and deleting the link.
use drivebrain_software.Base.{
  ◌≡◌, refl, true, false, List, [], ◌∷◌, map, none, some, String, Option,
}
use drivebrain_software.Sim.Defs.{Recv, Link, start, close, delete_link, veh_recv_loop}

-- A link that runs is closed: the call answers true, the thread is joined, the socket is closed,
-- and the link can be deleted. If it is started again, `start` answers true as before, but its loop
-- ends before it takes a message, `close` answers false and leaves the thread, and to delete the
-- link then ends the program, as it does for any link that was started and not closed.
pub closed_link :
    {D M S : Type 0} (find : String → Option D) (parse : D → String → Option M)
    (consume : M → S → S) (l : Link) (rounds : List Recv) (s : S)
    → l.running ≡ true
    → let c = (close l).0 in
      let again = record c { thread = true } in
      ((close l).1 ≡ true)
      × (c.bound ≡ false)
      × (delete_link c ≡ some tt)
      × (start c ≡ some (again, true))
      × (veh_recv_loop D M S find parse consume (map (λ r. (again.running, r)) rounds) s ≡ s)
      × (close again ≡ (again, false))
      × (delete_link again ≡ none)
unfolding close start delete_link
closed_link {D} {M} {S} find parse consume l rounds s on =
    rw on (refl, refl, refl, refl, still rounds, refl, refl)
  where
    still :
        (rounds : List Recv)
        → veh_recv_loop D M S find parse consume (map (λ r. (false, r)) rounds) s ≡ s
    still [] = unfold veh_recv_loop in refl
    still (r ∷ rest) = unfold veh_recv_loop in refl
