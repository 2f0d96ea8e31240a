-- ===== src/Schema/Files.antt =====
-- `serialize_fd_set` ends, and gives the files that a message needs.
use mathlib.Core.List.{Memᴰ, append-nil, append_assoc}
use mathlib.Core.List.Memᴰ
use mathlib.Core.Logic.{⊎_elim}
use drivebrain_software.Base.{
  ℕ, zero, suc, ◌≤◌, ◌≡◌, refl, ap, sym, ◌∙◌, subst, arith, ◌⊎◌, inl, inr, ◌↔◌, String, List, [],
  ◌∷◌, ◌++◌, true, some, str_eq, eq_iff, map, length, Bool-cases,
}
use drivebrain_software.Schema.Defs.{FilePool, contains, Walk, expand, walk, serialize_fd_set}
use drivebrain_software.Schema.Walk.{
  IsDistinct, Needs, itself, needs, Inv, visit_all-Inv, visit_all-seen, visit_all_self,
  visit_all-fd_set, unseen, work, visit_all-work,
}

List-cases {ℓ} :
    {A : Type ℓ} (xs : List A) → (xs ≡ []) ⊎ ((x : A) × (rest : List A) × (xs ≡ x ∷ rest))
List-cases [] = inl refl
List-cases (x ∷ xs) = inr (x, xs, refl)

-- A name in a list of names is that of some element.
contains-map :
    {A : Type 0} (name : A → String) (x : String) (fs : List A)
    → contains x (map name fs) ≡ true
    → (f : A) × Memᴰ f fs × (name f ≡ x)
unfolding contains
contains-map name x [] there = cc
contains-map name x (f ∷ fs) there = elim (Bool-cases (str_eq (name f) x)) [
  | inl same ↦ (f, Memᴰ.head refl, (eq_iff (name f) x).0 same)
  | inr other ↦
      let (g, m, e) = contains-map name x fs (ground (arith, other, there)) in (g, Memᴰ.tail m, e)
]

module _ (pool : FilePool) where
  open pool use {File, name, dependencies}

  -- The dependencies of the files taken are found.
  abbrev Closed : Walk pool → Type 0
  Closed w =
      (f g : File) → Memᴰ f w.fd_set → Memᴰ g (dependencies f) → contains (name g) w.seen ≡ true

  abbrev Taken : File → List File → Walk pool → Walk pool
  Taken next rest w = record w { fd_set = w.fd_set ++ (next ∷ []); to_add = rest }

  expand-Inv :
      (top next : File) (rest : List File) (w : Walk pool)
      → w.to_add ≡ next ∷ rest
      → Inv pool top w
      → Inv pool top (expand pool next rest w)
  unfolding expand
  expand-Inv top next rest w front h =
      visit_all-Inv pool top (dependencies next) (Taken next rest w)
        (λ d m. needs (h.sound next taken) m)
        (record {
          rest = h.rest;
          order = same ∙ h.order;
          names = h.names;
          distinct = h.distinct;
          sound = λ f m. h.sound f (subst (Memᴰ f) same m);
        })
    where
      same : (w.fd_set ++ (next ∷ [])) ++ rest ≡ w.fd_set ++ w.to_add
      same = append_assoc w.fd_set (next ∷ []) rest ∙ ap (λ l. w.fd_set ++ l) (sym front)

      taken : Memᴰ next (w.fd_set ++ w.to_add)
      taken = Memᴰ.append_right w.fd_set (subst (Memᴰ next) (sym front) (Memᴰ.head refl))

  expand-Closed :
      (next : File) (rest : List File) (w : Walk pool) → Closed w → Closed (expand pool next rest w)
  unfolding expand
  expand-Closed next rest w closed f g m dep =
      ⊎_elim
        (λ before.
          visit_all-seen pool (name g) (dependencies next) (Taken next rest w)
            (closed f g before dep))
        (λ last.
          visit_all_self pool g (dependencies next) (Taken next rest w)
            (subst (λ x. Memᴰ g (dependencies x)) (Memᴰ.eq_of_singleton last) dep))
        (Memᴰ.append_cases w.fd_set
          (subst (Memᴰ f) (visit_all-fd_set pool (dependencies next) (Taken next rest w)) m))

  walk_next :
      (fuel : ℕ) (next : File) (rest : List File) (w : Walk pool)
      → w.to_add ≡ next ∷ rest
      → walk pool (suc fuel) w ≡ walk pool fuel (expand pool next rest w)
  unfolding walk
  walk_next fuel next rest w front = rw (front, walk)

  -- The set holds the file, and behind it every other file that is needed, each once.
  pub record IsComplete (top : File) (fd_set : List File) : Type 0 where
    pub others : List File
    pub starts : fd_set ≡ top ∷ others
    pub once : IsDistinct (map name others)
    pub exact : (f : File) → Memᴰ f fd_set ↔ Needs pool top f

  -- `every` names all files that can come up, and a name belongs to one file.
  module _ (every : List File) (top : File)
      (known : (f g : File) → Needs pool top f → Memᴰ g (dependencies f) → Memᴰ g every)
      (named : (f g : File) → name f ≡ name g → f ≡ g) where
    complete :
        (w : Walk pool)
        → Inv pool top w
        → Closed w
        → w.to_add ≡ []
        → (f : File) → Needs pool top f
        → Memᴰ f w.fd_set
    complete w h closed empty f itself = subst (Memᴰ f) (sym all_taken) (Memᴰ.head refl)
      where
        all_taken : w.fd_set ≡ f ∷ h.rest
        all_taken = sym (append-nil w.fd_set) ∙ ap (λ l. w.fd_set ++ l) (sym empty) ∙ h.order
    complete w h closed empty g (needs {f} p dep) =
        let there = closed f g (complete w h closed empty f p) dep in
        let (k, m, e) =
          contains-map name (name g) h.rest
            (subst (λ l. contains (name g) l ≡ true) (sym h.names) there) in
        subst (λ x. Memᴰ x w.fd_set) (named k g e) (subst (Memᴰ k) (sym all_taken) (Memᴰ.tail m))
      where
        all_taken : w.fd_set ≡ top ∷ h.rest
        all_taken = sym (append-nil w.fd_set) ∙ ap (λ l. w.fd_set ++ l) (sym empty) ∙ h.order

    finished : (w : Walk pool) → Inv pool top w → Closed w → w.to_add ≡ [] → IsComplete top w.fd_set
    finished w h closed empty = record {
      others = h.rest;
      starts = same ∙ h.order;
      once = subst IsDistinct (sym h.names) h.distinct;
      exact = λ f. (λ m. h.sound f (subst (Memᴰ f) same m), complete w h closed empty f);
    }
      where
        same : w.fd_set ≡ w.fd_set ++ w.to_add
        same = sym (append-nil w.fd_set) ∙ ap (λ l. w.fd_set ++ l) (sym empty)

    expand-work :
        (next : File) (rest : List File) (w : Walk pool)
        → w.to_add ≡ next ∷ rest
        → Inv pool top w
        → suc (work pool every (expand pool next rest w)) ≤ work pool every w
    unfolding expand
    expand-work next rest w front h = omega (
      arith,
      ap length front,
      visit_all-work pool every (dependencies next) (Taken next rest w)
          (λ d m. known next d (h.sound next taken) m),
    )
      where
        taken : Memᴰ next (w.fd_set ++ w.to_add)
        taken = Memᴰ.append_right w.fd_set (subst (Memᴰ next) (sym front) (Memᴰ.head refl))

    walk_ends :
        (fuel : ℕ) (w : Walk pool)
        → work pool every w ≤ fuel
        → Inv pool top w
        → Closed w
        → (fd_set : List File) × (walk pool fuel w ≡ some fd_set) × IsComplete top fd_set
    unfolding walk
    walk_ends zero w enough h closed = elim (List-cases w.to_add) [
      | inl empty ↦ (w.fd_set, rw (empty, walk), finished w h closed empty)
      | inr (next, rest, front) ↦ absurd (omega (arith, ap length front))
    ]
    walk_ends (suc fuel) w enough h closed = elim (List-cases w.to_add) [
      | inl empty ↦ (w.fd_set, rw (empty, walk), finished w h closed empty)
      | inr (next, rest, front) ↦
          let (fd_set, ends, whole) =
            walk_ends fuel (expand pool next rest w)
              (omega (arith, expand-work next rest w front h)) (expand-Inv top next rest w front h)
              (expand-Closed next rest w closed) in
          (fd_set, walk_next fuel next rest w front ∙ ends, whole)
    ]

    unseen-length : (fs : List File) → unseen pool fs [] ≡ length fs
    unfolding unseen contains
    unseen-length [] = refl
    unseen-length (f ∷ fs) = ap suc (unseen-length fs)

    -- If a pool has finitely many files for a message's file to need, and no two files of one name,
    -- then `serialize_fd_set` ends, within one round for each file and one more, also where files
    -- need each other in a circle. The set starts with the message's file; behind it no name occurs
    -- twice; and it holds exactly the files that the message's file needs, itself included.
    pub serialize_fd_set-IsComplete :
        (fd_set : List File) × (serialize_fd_set pool (suc (length every)) top ≡ some fd_set)
        × IsComplete top fd_set
    unfolding serialize_fd_set IsDistinct
    serialize_fd_set-IsComplete =
        walk_ends (suc (length every)) (record { fd_set = []; to_add = top ∷ []; seen = [] })
          (omega (arith, unseen-length every))
          (record {
            rest = [];
            order = refl;
            names = refl;
            distinct = tt;
            sound = λ f m. subst (Needs pool top) (sym (Memᴰ.eq_of_singleton m)) itself;
          })
          (λ f g m dep. absurd (Memᴰ.not-nil m))
