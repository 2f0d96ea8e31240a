-- ===== src/Schema/Walk.antt =====
-- The rounds of `serialize_fd_set`: what they keep, and what falls with each of them.
use mathlib.Core.List.{Memᴰ, append_assoc, map-append}
use mathlib.Core.List.Memᴰ
use mathlib.Core.Logic.{⊎_elim}
use drivebrain_software.Base.{
  ℕ, suc, ◌+◌, ◌≤◌, ◌≡◌, refl, ap, sym, ◌∙◌, subst, arith, inl, inr, String, List, [], ◌∷◌, ◌++◌,
  true, false, ◌||◌, str_eq, eq_iff, map, length, length-append, Bool-cases, if◌then◌else◌,
}
use drivebrain_software.Schema.Defs.{FilePool, contains, Walk, visit, visit_all}

pub contains-append :
    (x : String) (xs : List String) (y : String)
    → contains x (xs ++ (y ∷ [])) ≡ (contains x xs || str_eq y x)
unfolding contains
contains-append x [] y = ground arith
contains-append x (z ∷ zs) y = ground (arith, contains-append x zs y)

-- No text occurs twice.
unfoldable pub IsDistinct : List String → Type 0
IsDistinct [] = Unit
IsDistinct (x ∷ xs) = (contains x xs ≡ false) × IsDistinct xs

IsDistinct-append :
    (xs : List String) (y : String)
    → IsDistinct xs
    → contains y xs ≡ false
    → IsDistinct (xs ++ (y ∷ []))
unfolding IsDistinct contains
IsDistinct-append [] y d new = (refl, tt)
IsDistinct-append (x ∷ xs) y (first, d) new = (
  ground (arith, contains-append x xs y, eq_iff x y, eq_iff y x),
  IsDistinct-append xs y d (ground arith),
)

module _ (pool : FilePool) where
  open pool use {File, name, dependencies}

  -- The files that a message's file needs, itself included.
  pub data Needs (top : File) : File → Type 0 where
    itself : Needs top top
    needs : {f g : File} → Needs top f → Memᴰ g (dependencies f) → Needs top g

  -- What every round keeps: the files taken and waiting are the first one and others, each found
  -- once and needed.
  pub record Inv (top : File) (w : Walk pool) : Type 0 where
    pub rest : List File
    pub order : w.fd_set ++ w.to_add ≡ top ∷ rest
    pub names : map name rest ≡ w.seen
    pub distinct : IsDistinct w.seen
    pub sound : (f : File) → Memᴰ f (w.fd_set ++ w.to_add) → Needs top f

  visit-Inv :
      (top dep : File) (w : Walk pool) → Needs top dep → Inv top w → Inv top (visit pool dep w)
  unfolding visit
  visit-Inv top dep w need h = elim (Bool-cases (contains (name dep) w.seen)) [
    | inl old ↦ rw old h
    | inr new ↦ rw new (record {
      rest = h.rest ++ (dep ∷ []);
      order = sym (append_assoc w.fd_set w.to_add (dep ∷ [])) ∙ ap (λ l. l ++ (dep ∷ [])) h.order;
      names = map-append name h.rest (dep ∷ []) ∙ ap (λ l. l ++ (name dep ∷ [])) h.names;
      distinct = IsDistinct-append w.seen (name dep) h.distinct new;
      sound = λ f m.
          ⊎_elim (h.sound f) (λ last. subst (Needs top) (sym (Memᴰ.eq_of_singleton last)) need)
            (Memᴰ.append_cases (w.fd_set ++ w.to_add)
              (subst (Memᴰ f) (sym (append_assoc w.fd_set w.to_add (dep ∷ []))) m));
    })
  ]

  pub visit_all-Inv :
      (top : File) (deps : List File) (w : Walk pool)
      → ((d : File) → Memᴰ d deps → Needs top d)
      → Inv top w
      → Inv top (visit_all pool deps w)
  unfolding visit_all
  visit_all-Inv top [] w need h = h
  visit_all-Inv top (d ∷ ds) w need h =
      visit_all-Inv top ds (visit pool d w) (λ e m. need e (Memᴰ.tail m))
        (visit-Inv top d w (need d (Memᴰ.head refl)) h)

  visit_seen :
      (x : String) (d : File) (w : Walk pool)
      → contains x w.seen ≡ true
      → contains x (visit pool d w).seen ≡ true
  unfolding visit
  visit_seen x d w old = ground (arith, contains-append x w.seen (name d))

  visit_self : (d : File) (w : Walk pool) → contains (name d) (visit pool d w).seen ≡ true
  unfolding visit
  visit_self d w =
      ground (arith, contains-append (name d) w.seen (name d), eq_iff (name d) (name d))

  pub visit_all-seen :
      (x : String) (deps : List File) (w : Walk pool)
      → contains x w.seen ≡ true
      → contains x (visit_all pool deps w).seen ≡ true
  unfolding visit_all
  visit_all-seen x [] w old = old
  visit_all-seen x (d ∷ ds) w old = visit_all-seen x ds (visit pool d w) (visit_seen x d w old)

  pub visit_all_self :
      (g : File) (deps : List File) (w : Walk pool)
      → Memᴰ g deps
      → contains (name g) (visit_all pool deps w).seen ≡ true
  unfolding visit_all
  visit_all_self g [] w m = absurd (Memᴰ.not-nil m)
  visit_all_self g (d ∷ ds) w m = elim (Memᴰ.cases_cons m) [
    | inl same ↦ visit_all-seen (name g) ds (visit pool d w) (rw same (visit_self d w))
    | inr later ↦ visit_all_self g ds (visit pool d w) later
  ]

  visit-fd_set : (d : File) (w : Walk pool) → (visit pool d w).fd_set ≡ w.fd_set
  unfolding visit
  visit-fd_set d w = ground arith

  pub visit_all-fd_set :
      (deps : List File) (w : Walk pool) → (visit_all pool deps w).fd_set ≡ w.fd_set
  unfolding visit_all
  visit_all-fd_set [] w = refl
  visit_all-fd_set (d ∷ ds) w = visit_all-fd_set ds (visit pool d w) ∙ visit-fd_set d w

  -- The files of a list that are not yet found.
  unfoldable pub unseen : List File → List String → ℕ
  unseen [] seen = 0
  unseen (f ∷ fs) seen = if contains (name f) seen then unseen fs seen else suc (unseen fs seen)

  unseen-le :
      (fs : List File) (seen : List String) (x : String)
      → unseen fs (seen ++ (x ∷ [])) ≤ unseen fs seen
  unfolding unseen
  unseen-le [] seen x = omega arith
  unseen-le (f ∷ fs) seen x = ground (arith, contains-append (name f) seen x, unseen-le fs seen x)

  unseen-lt :
      (fs : List File) (seen : List String) (d : File)
      → Memᴰ d fs
      → contains (name d) seen ≡ false
      → suc (unseen fs (seen ++ (name d ∷ []))) ≤ unseen fs seen
  unfolding unseen
  unseen-lt [] seen d m new = absurd (Memᴰ.not-nil m)
  unseen-lt (f ∷ fs) seen d m new = elim (Memᴰ.cases_cons m) [
    | inl same ↦ ground (
      arith,
      same,
      contains-append (name f) seen (name d),
      eq_iff (name d) (name f),
      unseen-le fs seen (name d),
      new,
    )
    | inr later ↦
        ground (arith, contains-append (name f) seen (name d), unseen-lt fs seen d later new)
  ]

  -- A round takes one file and queues only files that it finds, so this falls by one.
  abbrev pub work : List File → Walk pool → ℕ
  work every w = unseen every w.seen + length w.to_add

  visit-work :
      (every : List File) (d : File) (w : Walk pool)
      → Memᴰ d every
      → work every (visit pool d w) ≤ work every w
  unfolding visit
  visit-work every d w m = elim (Bool-cases (contains (name d) w.seen)) [
    | inl old ↦ rw old (omega arith)
    | inr new ↦
        rw new (omega (arith, unseen-lt every w.seen d m new, length-append w.to_add (d ∷ [])))
  ]

  pub visit_all-work :
      (every deps : List File) (w : Walk pool)
      → ((d : File) → Memᴰ d deps → Memᴰ d every)
      → work every (visit_all pool deps w) ≤ work every w
  unfolding visit_all
  visit_all-work every [] w known = omega arith
  visit_all-work every (d ∷ ds) w known = omega (
    arith,
    visit-work every d w (known d (Memᴰ.head refl)),
    visit_all-work every ds (visit pool d w) (λ e m. known e (Memᴰ.tail m)),
  )
