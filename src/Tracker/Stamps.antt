-- ===== src/Tracker/Stamps.antt =====
-- `_validate_timestamps` against a description without sorting.
use Prim.Native.Nat.{min, max}
use drivebrain_software.Base.{
  ℕ, ◌+◌, ◌-◌, ◌≤◌, ◌<◌, ◌≡◌, ◌≢◌, ◌↔◌, All, ◌⊎◌, inl, inr, refl, arith, true, false, ◌&&◌, List,
  [], ◌∷◌, ltb, leb, Bool-cases,
}
use drivebrain_software.Tracker.Clock.{
  Stamps, insert_sorted, sort, front_of, back_of, threshold, validate_timestamps,
}

-- Ascending, from a lower bound on.
abbrev Ascends : ℕ → List ℕ → Type 0
Ascends low [] = Unit
Ascends low (x ∷ xs) = (low ≤ x) × Ascends x xs

insert_sorted-Ascends :
    (low x : ℕ) (xs : List ℕ) → low ≤ x → Ascends low xs → Ascends low (insert_sorted x xs)
unfolding insert_sorted
insert_sorted-Ascends low x [] h s = (h, tt)
insert_sorted-Ascends low x (y ∷ ys) h s =
    ground (arith, λ (p : y ≤ x). insert_sorted-Ascends y x ys p s.1)

sort-Ascends : (xs : List ℕ) → Ascends 0 (sort xs)
unfolding sort
sort-Ascends [] = tt
sort-Ascends (x ∷ xs) = insert_sorted-Ascends 0 x (sort xs) (omega arith) (sort-Ascends xs)

back_of-ge : (x : ℕ) (xs : List ℕ) → Ascends x xs → x ≤ back_of (x ∷ xs)
unfolding back_of
back_of-ge x [] s = omega arith
back_of-ge x (y ∷ ys) s = omega (arith, back_of-ge y ys s.1)

front_of-insert_sorted : (x y : ℕ) (ys : List ℕ) → front_of (insert_sorted x (y ∷ ys)) ≡ min x y
unfolding insert_sorted
front_of-insert_sorted x y ys = ground arith

back_of-cons-insert_sorted :
    (x y z : ℕ) (zs : List ℕ)
    → back_of (y ∷ insert_sorted x (z ∷ zs)) ≡ back_of (insert_sorted x (z ∷ zs))
unfolding insert_sorted back_of
back_of-cons-insert_sorted x y z zs = elim (Bool-cases (leb x z)) [
  | inl le ↦ rw le
  | inr gt ↦ rw gt
]

insert_sorted_le : (x y : ℕ) (ys : List ℕ) → leb x y ≡ true → insert_sorted x (y ∷ ys) ≡ x ∷ y ∷ ys
unfolding insert_sorted
insert_sorted_le x y ys h = rw h

insert_sorted_gt :
    (x y : ℕ) (ys : List ℕ) → leb x y ≡ false → insert_sorted x (y ∷ ys) ≡ y ∷ insert_sorted x ys
unfolding insert_sorted
insert_sorted_gt x y ys h = rw h

back_of-cons : (x y : ℕ) (ys : List ℕ) → back_of (x ∷ y ∷ ys) ≡ back_of (y ∷ ys)
unfolding back_of
back_of-cons x y ys = refl

back_of-insert_sorted :
    (low x y : ℕ) (ys : List ℕ)
    → Ascends low (y ∷ ys)
    → back_of (insert_sorted x (y ∷ ys)) ≡ max x (back_of (y ∷ ys))
back_of-insert_sorted low x y [] s = unfold insert_sorted back_of in (ground arith)
back_of-insert_sorted low x y (z ∷ zs) s = elim (Bool-cases (leb x y)) [
  | inl le ↦
      rw (insert_sorted_le x y (z ∷ zs) le, back_of-cons x y (z ∷ zs))
        (ground (arith, back_of-ge y (z ∷ zs) s.1))
  | inr gt ↦ rw (
    insert_sorted_gt x y (z ∷ zs) gt,
    back_of-cons-insert_sorted x y z zs,
    back_of-insert_sorted y x z zs s.1,
    back_of-cons y z zs,
  )
]

-- The times, for statements about all four.
abbrev pub times : Stamps → List ℕ
times t = t.rear ∷ t.front ∷ t.pedals ∷ t.steering ∷ []

insert_sorted-ne-nil : (x : ℕ) (ys : List ℕ) → insert_sorted x ys ≢ []
unfolding insert_sorted
insert_sorted-ne-nil x [] = ground arith
insert_sorted-ne-nil x (y ∷ ys) = ground arith

front_of-insert :
    (x : ℕ) (ys : List ℕ) → ys ≢ [] → front_of (insert_sorted x ys) ≡ min x (front_of ys)
front_of-insert x [] h = absurd (h refl)
front_of-insert x (y ∷ ys) h = front_of-insert_sorted x y ys

back_of-insert :
    (x : ℕ) (ys : List ℕ)
    → ys ≢ []
    → Ascends 0 ys
    → back_of (insert_sorted x ys) ≡ max x (back_of ys)
back_of-insert x [] h s = absurd (h refl)
back_of-insert x (y ∷ ys) h s = back_of-insert_sorted 0 x y ys s

sort-ne-nil : (x : ℕ) (xs : List ℕ) → sort (x ∷ xs) ≢ []
unfolding sort
sort-ne-nil x xs = insert_sorted-ne-nil x (sort xs)

front_of-sort :
    (x y : ℕ) (ys : List ℕ) → front_of (sort (x ∷ y ∷ ys)) ≡ min x (front_of (sort (y ∷ ys)))
unfolding sort
front_of-sort x y ys = front_of-insert x (sort (y ∷ ys)) (sort-ne-nil y ys)

back_of-sort :
    (x y : ℕ) (ys : List ℕ) → back_of (sort (x ∷ y ∷ ys)) ≡ max x (back_of (sort (y ∷ ys)))
unfolding sort
back_of-sort x y ys = back_of-insert x (sort (y ∷ ys)) (sort-ne-nil y ys) (sort-Ascends (y ∷ ys))

ends-sort_one : (x : ℕ) → (front_of (sort (x ∷ [])) ≡ x) × (back_of (sort (x ∷ [])) ≡ x)
unfolding sort insert_sorted back_of
ends-sort_one x = (refl, refl)

-- Every group has been heard of, no two are more than half a second apart, and one is less than
-- half a second old.
pub record IsCurrent (now : ℕ) (t : Stamps) : Type 0 where
  pub received : All (λ s. 0 < s) (times t)
  pub together : All (λ s. All (λ r. s ≤ r + threshold) (times t)) (times t)
  pub recent :
      (now < t.rear + threshold)
      ⊎ (now < t.front + threshold)
      ⊎ (now < t.pedals + threshold)
      ⊎ (now < t.steering + threshold)

module _ (now : ℕ) (t : Stamps) where
  abbrev sorted : List ℕ
  sorted = sort (times t)

  -- The three tests, without subtraction.
  tests_iff :
      (lo hi : ℕ)
      → ((leb (hi - lo) threshold && ltb 0 lo && ltb (now - hi) threshold) ≡ true)
        ↔ ((hi ≤ lo + threshold) × (0 < lo) × (now < hi + threshold))
  tests_iff lo hi = ground arith

  front-times : front_of sorted ≡ min t.rear (min t.front (min t.pedals t.steering))
  front-times = omega (
    arith,
    front_of-sort t.rear t.front (t.pedals ∷ t.steering ∷ []),
    front_of-sort t.front t.pedals (t.steering ∷ []),
    front_of-sort t.pedals t.steering [],
    (ends-sort_one t.steering).0,
  )

  back-times : back_of sorted ≡ max t.rear (max t.front (max t.pedals t.steering))
  back-times = omega (
    arith,
    back_of-sort t.rear t.front (t.pedals ∷ t.steering ∷ []),
    back_of-sort t.front t.pedals (t.steering ∷ []),
    back_of-sort t.pedals t.steering [],
    (ends-sort_one t.steering).1,
  )

  -- The timestamps pass the check exactly when all four groups of sensors have been received, no two
  -- are more than 500 ms apart, and the latest is less than 500 ms old.
  pub validate_timestamps_iff : (validate_timestamps now t ≡ true) ↔ IsCurrent now t
  unfolding validate_timestamps
  validate_timestamps_iff = (
    λ h.
        let (near, first, last) = (tests_iff (front_of sorted) (back_of sorted)).0 h in
        record {
          received = omega (arith, front-times);
          together = omega (arith, front-times, back-times);
          recent = omega (arith, back-times);
        },
    λ h. (tests_iff (front_of sorted) (back_of sorted)).1 (
      omega (arith, front-times, back-times),
      omega (arith, front-times),
      omega (arith, back-times),
    ),
  )
