-- ===== src/Base/Text.antt =====
-- Lower case of a text, as `std::transform` with `std::tolower` in the C locale computes it.
use Prim.Native.Char.{Char, code}
use Prim.Native.String.{String}
use Prim.Native.Nat.{ℕ}
use mathlib.Core.List.{List, [], ◌∷◌}
use mathlib.Core.Path.{◌≡◌, refl, ap}
use mathlib.Core.Logic.{◌⊎◌, inl, inr}
use native.Mathlib.Omega.{arith}
use drivebrain_software.Base.Tests.{◌==◌, if◌then◌else◌}

-- The 26 letters that `std::tolower` changes, by code, each after its lower-case letter.
abbrev letters : List (Char × ℕ)
letters =
    ("z", b'Z')
    ∷ ("y", b'Y')
    ∷ ("x", b'X')
    ∷ ("w", b'W')
    ∷ ("v", b'V')
    ∷ ("u", b'U')
    ∷ ("t", b'T')
    ∷ ("s", b'S')
    ∷ ("r", b'R')
    ∷ ("q", b'Q')
    ∷ ("p", b'P')
    ∷ ("o", b'O')
    ∷ ("n", b'N')
    ∷ ("m", b'M')
    ∷ ("l", b'L')
    ∷ ("k", b'K')
    ∷ ("j", b'J')
    ∷ ("i", b'I')
    ∷ ("h", b'H')
    ∷ ("g", b'G')
    ∷ ("f", b'F')
    ∷ ("e", b'E')
    ∷ ("d", b'D')
    ∷ ("c", b'C')
    ∷ ("b", b'B')
    ∷ ("a", b'A')
    ∷ []

lower_by : List (Char × ℕ) → Char → Char
lower_by [] c = c
lower_by ((l, n) ∷ rest) c = if code c == n then l else lower_by rest c

unfoldable pub tolower : Char → Char
unfolding lower_by
tolower c = lower_by letters c

unfoldable pub to_lowercase : String → String
to_lowercase String.[] = String.[]
to_lowercase (String.◌∷◌ c s) = String.◌∷◌ (tolower c) (to_lowercase s)

-- The table's first column is fixed by the table.
Settled : List (Char × ℕ) → Type 0
Settled [] = Unit
Settled ((l, k) ∷ rest) = (tolower l ≡ l) × Settled rest

letters-Settled : Settled letters
unfolding Settled tolower
letters-Settled = ground arith

lower_by-Settled :
    (table : List (Char × ℕ)) (c : Char)
    → Settled table
    → (lower_by table c ≡ c) ⊎ (tolower (lower_by table c) ≡ lower_by table c)
unfolding lower_by Settled
lower_by-Settled [] c s = inl refl
lower_by-Settled ((l, k) ∷ rest) c s = ground (arith, lower_by-Settled rest c s.1)

tolower_idem : (c : Char) → tolower (tolower c) ≡ tolower c
tolower_idem c = elim (lower_by-Settled letters c letters-Settled) [
  | inl same ↦ ap tolower (unfold tolower in same)
  | inr settled ↦ unfold tolower in settled
]

pub to_lowercase_idem : (s : String) → to_lowercase (to_lowercase s) ≡ to_lowercase s
unfolding to_lowercase
to_lowercase_idem String.[] = refl
to_lowercase_idem (String.◌∷◌ c s) = cc (tolower_idem c, to_lowercase_idem s)
