-- ===== src/Tracker/Clock.antt =====
-- `_validate_timestamps` of the class `StateTracker`. Times are microseconds since the epoch.
use drivebrain_software.Base.{ℕ, ◌-◌, Bool, ◌&&◌, List, [], ◌∷◌, ltb, leb, if◌then◌else◌}

-- `_timestamp_array`: the last time of each group of sensors.
pub record Stamps : Type 0 where
  pub rear : ℕ
  pub front : ℕ
  pub pedals : ℕ
  pub steering : ℕ

-- `std::sort` on a range of times.
unfoldable pub insert_sorted : ℕ → List ℕ → List ℕ
insert_sorted x [] = x ∷ []
insert_sorted x (y ∷ ys) = if leb x y then x ∷ y ∷ ys else y ∷ insert_sorted x ys

unfoldable pub sort : List ℕ → List ℕ
unfolding insert_sorted
sort [] = []
sort (x ∷ xs) = insert_sorted x (sort xs)

-- `front()` and `back()` of an array that is not empty.
abbrev pub front_of : List ℕ → ℕ
front_of [] = 0
front_of (x ∷ xs) = x

unfoldable pub back_of : List ℕ → ℕ
back_of [] = 0
back_of (x ∷ []) = x
back_of (x ∷ y ∷ ys) = back_of (y ∷ ys)

abbrev pub threshold : ℕ
threshold = 500_000

-- `_validate_timestamps`. The last difference is negative in the source if the clock went back, and
-- then below the threshold, as the truncated one is here.
unfoldable pub validate_timestamps : ℕ → Stamps → Bool
validate_timestamps now t =
    let sorted = sort (t.rear ∷ t.front ∷ t.pedals ∷ t.steering ∷ []) in
    let min_stamp = front_of sorted in
    let max_stamp = back_of sorted in
    let within_threshold = leb (max_stamp - min_stamp) threshold in
    let all_members_received = ltb 0 min_stamp in
    let last_update_recent_enough = ltb (now - max_stamp) threshold in
    within_threshold && all_members_received && last_update_recent_enough
