-- ===== src/Logger/Fresh.antt =====
-- The chosen name is new, and what a number that is too long does.
use drivebrain_software.Base.{
  ℕ, zero, suc, ◌+◌, ◌-◌, ◌*◌, ◌/◌, ◌%◌, ◌^◌, ◌≤◌, ◌<◌, ◌≡◌, ◌≢◌, arith, ap, ◌∙◌, subst, true,
  false, List, [], ◌∷◌, ◌++◌, none, some, ltb, ◌⊎◌, inl, inr, All, Bool-cases, Option-cases,
}
use mathlib.Core.Option.{some-injective, none-ne-some}
use drivebrain_software.Base.Int.{pos, negsuc}
use drivebrain_software.Logger.Names.{
  Entry, Stoi, invalid_argument, out_of_range, parsed, is_space, is_digit, skip_spaces, digits,
  starts_with_digit, parse_unsigned, parse_signed, stoi, larger, max_file_number, print, extension,
  numbered, get_logfile_name,
}

digits-cons :
    (k v : ℕ) (rest : List ℕ) → k < 10 → digits ((b'0' + k) ∷ rest) v ≡ digits rest (v * 10 + k)
unfolding digits is_digit
digits-cons k v rest h = rw shown (ap (λ j. digits rest (v * 10 + j)) back)
  where
    shown : is_digit (b'0' + k) ≡ true
    shown = ground arith

    back : b'0' + k - b'0' ≡ k
    back = omega arith

-- Printed digits read back.
digits-print :
    (fuel v : ℕ) (rest : List ℕ) → v < fuel → digits (print fuel v rest) 0 ≡ digits rest v
unfolding digits print is_digit
digits-print zero v rest h = absurd (omega arith)
digits-print (suc fuel) v rest h = elim (Bool-cases (ltb v 10)) [
  | inl small ↦
      rw (small, print) (digits-cons v 0 rest (ground arith) ∙ ap (digits rest) (omega arith))
  | inr big ↦
      rw (big, print)
        (digits-print fuel (v / 10) ((b'0' + v % 10) ∷ rest) (ground arith)
          ∙ digits-cons (v % 10) (v / 10) rest (omega arith)
          ∙ ap (digits rest) (omega arith))
]

starts_with_digit-print :
    (fuel v : ℕ) (rest : List ℕ) → v < fuel → starts_with_digit (print fuel v rest) ≡ true
unfolding starts_with_digit print is_digit
starts_with_digit-print zero v rest h = absurd (omega arith)
starts_with_digit-print (suc fuel) v rest h =
    ground (arith, starts_with_digit-print fuel (v / 10) ((b'0' + v % 10) ∷ rest))

-- A text that starts with a digit is not skipped and has no sign.
stoi-print :
    (s : List ℕ)
    → starts_with_digit s ≡ true
    → digits s 0 < 2 ^ 31
    → stoi s ≡ parsed (pos (digits s 0))
unfolding stoi skip_spaces is_space parse_signed parse_unsigned starts_with_digit is_digit
stoi-print [] start small = absurd (ground arith)
stoi-print (c ∷ s) start small = ground (arith, start, small)

stoi-numbered : (v : ℕ) → v < 2 ^ 31 → stoi (numbered v) ≡ parsed (pos v)
unfolding numbered digits is_digit
stoi-numbered v small =
    stoi-print (print (suc v) v extension)
      (starts_with_digit-print (suc v) v extension (omega arith)) (rw read small)
    ∙ ap (λ k. parsed (pos k)) read
  where
    read : digits (print (suc v) v extension) 0 ≡ v
    read = digits-print (suc v) v extension (omega arith)

abbrev NotAbove : ℕ → Stoi → Type 0
NotAbove k (parsed (pos j)) = j ≤ k
NotAbove k _ = Unit

NotAbove-le : (j k : ℕ) (r : Stoi) → j ≤ k → NotAbove j r → NotAbove k r
NotAbove-le j k invalid_argument le h = tt
NotAbove-le j k out_of_range le h = tt
NotAbove-le j k (parsed (pos i)) le h = omega arith
NotAbove-le j k (parsed (negsuc i)) le h = tt

larger-NotAbove : (r : Stoi) (l k : ℕ) → larger r l ≡ some k → (l ≤ k) × NotAbove k r
unfolding larger
larger-NotAbove invalid_argument l k e = (ground arith, tt)
larger-NotAbove out_of_range l k e = absurd (ground arith)
larger-NotAbove (parsed (pos j)) l k e = (ground arith, ground arith)
larger-NotAbove (parsed (negsuc j)) l k e = (ground arith, tt)

abbrev IsBelow : ℕ → Entry → Type 0
IsBelow k e = (e.is_regular_file ≡ false) ⊎ NotAbove k (stoi e.filename)

max_file_number-IsBelow :
    (es : List Entry) (l k : ℕ) → max_file_number es l ≡ some k → (l ≤ k) × All (IsBelow k) es
unfolding max_file_number
max_file_number-IsBelow [] l k done = (ground arith, tt)
max_file_number-IsBelow (e ∷ es) l k done = elim (Bool-cases e.is_regular_file) [
  | inr other ↦
      let (le, below) = max_file_number-IsBelow es l k (rw (other, max_file_number) at done) in
      (le, (inl other, below))
  | inl regular ↦ elim (Option-cases (larger (stoi e.filename) l)) [
    | inl thrown ↦ absurd (none-ne-some k (rw (regular, thrown, max_file_number) at done))
    | inr (j, next) ↦
        let (le, below) =
          max_file_number-IsBelow es j k (rw (regular, next, max_file_number) at done) in
        let (ge, mine) = larger-NotAbove (stoi e.filename) l j next in
        (omega arith, (inr (NotAbove-le j k (stoi e.filename) le mine), below))
  ]
]

abbrev pub IsFresh : List ℕ → Entry → Type 0
IsFresh name e = (e.is_regular_file ≡ false) ⊎ (e.filename ≢ name)

below-IsFresh :
    (k : ℕ) (es : List Entry)
    → suc k < 2 ^ 31
    → All (IsBelow k) es
    → All (IsFresh (numbered (suc k))) es
below-IsFresh k [] small below = tt
below-IsFresh k (e ∷ es) small (inl other, below) = (inl other, below-IsFresh k es small below)
below-IsFresh k (e ∷ es) small (inr mine, below) = (
  inr (λ same.
      let high : NotAbove k (parsed (pos (suc k))) =
        subst (NotAbove k) (ap stoi same ∙ stoi-numbered (suc k) small) mine in
      omega arith),
  below-IsFresh k es small below,
)

-- The name that is chosen in a directory that can be read is not the name of any regular file in
-- it, and `std::stoi` reads its number back.
pub get_logfile_name-IsFresh :
    (es : List Entry) (name : List ℕ)
    → get_logfile_name (some es) ≡ some name
    → ((v : ℕ) × (v < 2 ^ 31) × (stoi name ≡ parsed (pos v))) × All (IsFresh name) es
unfolding get_logfile_name
get_logfile_name-IsFresh es name done = elim (Option-cases (max_file_number es 0)) [
  | inl thrown ↦ absurd (none-ne-some name (rw (thrown, get_logfile_name) at done))
  | inr (k, found) ↦ elim (Bool-cases (ltb (suc k) (2 ^ 31))) [
    | inr over ↦ absurd (none-ne-some name (rw (found, over, get_logfile_name) at done))
    | inl small ↦
        let room : suc k < 2 ^ 31 = ground arith in
        let named =
          some-injective (numbered (suc k)) name (rw (found, small, get_logfile_name) at done) in
        subst (λ s. ((v : ℕ) × (v < 2 ^ 31) × (stoi s ≡ parsed (pos v))) × All (IsFresh s) es) named
          (
            (suc k, room, stoi-numbered (suc k) room),
            below-IsFresh k es room (max_file_number-IsBelow es 0 k found).1,
          )
  ]
]

-- If the number at the front of some file's name does not fit in an `int`, the exception of
-- `std::stoi` leaves `get_logfile_name`.
pub get_logfile_name-throws :
    (before after : List Entry) (e : Entry)
    → e.is_regular_file ≡ true
    → stoi e.filename ≡ out_of_range
    → get_logfile_name (some (before ++ (e ∷ after))) ≡ none
unfolding get_logfile_name max_file_number larger
get_logfile_name-throws before after e regular long = rw (thrown before 0, get_logfile_name)
  where
    thrown : (es : List Entry) (l : ℕ) → max_file_number (es ++ (e ∷ after)) l ≡ none
    thrown [] l = rw (regular, long)
    thrown (f ∷ es) l = elim (Bool-cases f.is_regular_file) [
      | inr other ↦ rw other (thrown es l)
      | inl file ↦ elim (Option-cases (larger (stoi f.filename) l)) [
        | inl none_left ↦ rw (file, none_left)
        | inr (k, next) ↦ rw (file, next) (thrown es k)
      ]
    ]
