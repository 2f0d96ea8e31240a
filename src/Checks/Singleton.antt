-- ===== src/Checks/Singleton.antt =====
-- A singleton that is created, created again, and destroyed.
use drivebrain_software.Base.{◌≡◌, refl, true, [], ◌∷◌, none, some}
use drivebrain_software.Singleton.{Heap, create, instance_of, create_again}

abbrev empty : Heap
empty = record { s_instance = none; alive = []; made = 0 }

abbrev one : Heap
one = record { s_instance = some 0; alive = 0 ∷ []; made = 1 }

one-instance : instance_of one ≡ some 0
unfolding instance_of
one-instance = refl

empty-instance : instance_of empty ≡ none
unfolding instance_of
empty-instance = refl

create_again_example : (instance_of (create true one) ≡ none) × ((create true one).alive ≡ 0 ∷ [])
create_again_example = create_again true one 0 one-instance
