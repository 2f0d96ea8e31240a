-- ===== src/Singleton.antt =====
-- The static functions `create`, `instance` and `destroy`, which the classes FoxgloveServer,
-- StateTracker, MCAPLogger, DrivebrainControllerInterface, ControllerManager and SimComms share
-- (drivebrain_core/src, drivebrain_core/include/ControllerManager.tpp, drivebrain_comms/src). The
-- classes differ in their destructor: it stores a null pointer in `_s_instance`, or it does not.
use drivebrain_software.Base.{
  ℕ, suc, ◌≡◌, arith, Bool, List, [], ◌∷◌, Option, none, some, if◌then◌else◌, ◌==◌,
}

-- `_s_instance`, and the objects that have been made and not deleted, by number, latest first.
pub record Heap : Type 0 where
  pub s_instance : Option ℕ
  pub alive : List ℕ
  pub made : ℕ

abbrev rest_of : List ℕ → List ℕ
rest_of [] = []
rest_of (_ ∷ rest) = rest

-- `delete` of the latest object, with `clears` for a destructor that stores a null pointer.
unfoldable pub delete_latest : (clears : Bool) → Heap → Heap
delete_latest clears h = record h {
  s_instance = if clears then none else h.s_instance;
  alive = rest_of h.alive;
}

-- `new`
unfoldable pub allocate : Heap → Heap
allocate h = record h { alive = h.made ∷ h.alive; made = suc h.made }

-- `create`: the object is made before the compare-and-exchange, which expects a null pointer.
unfoldable pub create : (clears : Bool) → Heap → Heap
unfolding delete_latest allocate
create clears h = elim h.s_instance [
  | none ↦ record (allocate h) { s_instance = some h.made }
  | some _ ↦ delete_latest clears (allocate h)
]

-- `instance`: `none` where the assertion fails.
unfoldable pub instance_of : Heap → Option ℕ
instance_of h = h.s_instance

remove : ℕ → List ℕ → List ℕ
remove p [] = []
remove p (q ∷ qs) = if p == q then qs else q ∷ remove p qs

-- `destroy`: the exchange leaves a null pointer, whatever the destructor does.
unfoldable pub destroy : Heap → Heap
unfolding remove
destroy h = elim h.s_instance [
  | none ↦ h
  | some p ↦ record h { s_instance = none; alive = remove p h.alive }
]

-- A second `create` deletes its own object. It keeps the instance if the destructor leaves
-- `_s_instance` alone; if the destructor clears it, the first object is still alive and no longer
-- the instance, so the next call of `instance` fails.
pub create_again :
    (clears : Bool) (h : Heap) (p : ℕ)
    → instance_of h ≡ some p
    → (instance_of (create clears h) ≡ (if clears then none else some p))
      × ((create clears h).alive ≡ h.alive)
unfolding instance_of create delete_latest allocate
create_again clears h p there = ground arith

-- From no instance, `create` and then `destroy` leave no instance and no new object alive, and
-- between the two the instance is the new object.
pub create-destroy :
    (clears : Bool) (h : Heap)
    → instance_of h ≡ none
    → (instance_of (create clears h) ≡ some h.made)
      × (instance_of (destroy (create clears h)) ≡ none)
      × ((destroy (create clears h)).alive ≡ h.alive)
unfolding instance_of create destroy remove allocate
create-destroy clears h empty = ground arith
