-- ===== src/Logger/Names.antt =====
-- `get_logfile_name` of MCAPLogger.cpp: the number of the next recording. A file name is a list of
-- bytes, as `std::string` is.
use drivebrain_software.Base.{
  ℕ, zero, suc, ◌+◌, ◌-◌, ◌*◌, ◌/◌, ◌%◌, ◌^◌, Bool, true, false, ◌&&◌, ◌||◌, List, [], ◌∷◌, Option,
  none, some, ltb, leb, ◌==◌, if◌then◌else◌,
}
use drivebrain_software.Base.Int.{ℤ, pos, negsuc, sub_ℕ}

-- An entry of the directory.
pub record Entry : Type 0 where
  pub is_regular_file : Bool
  pub filename : List ℕ

-- The results of `std::stoi`: a number or one of its two exceptions.
pub data Stoi : Type 0 where
  invalid_argument : Stoi
  out_of_range : Stoi
  parsed : ℤ → Stoi

unfoldable pub is_space : ℕ → Bool
is_space c = (c == b' ') || (leb 9 c && leb c 13)

unfoldable pub is_digit : ℕ → Bool
is_digit c = leb b'0' c && leb c b'9'

unfoldable pub skip_spaces : List ℕ → List ℕ
unfolding is_space
skip_spaces [] = []
skip_spaces (c ∷ s) = let rest = skip_spaces s in if is_space c then rest else c ∷ s

-- The number that the digits at the front make, after the value of those before.
unfoldable pub digits : List ℕ → ℕ → ℕ
unfolding is_digit
digits [] v = v
digits (c ∷ s) v = let rest = digits s (v * 10 + (c - b'0')) in if is_digit c then rest else v

unfoldable pub starts_with_digit : List ℕ → Bool
unfolding is_digit
starts_with_digit [] = false
starts_with_digit (c ∷ s) = is_digit c

unfoldable pub parse_unsigned : (negative : Bool) → List ℕ → Stoi
unfolding starts_with_digit digits
parse_unsigned negative s =
    let v = digits s 0 in
    if starts_with_digit s
    then if negative
      then if leb v (2 ^ 31) then parsed (sub_ℕ 0 v) else out_of_range
      else if ltb v (2 ^ 31)
      then parsed (pos v)
      else out_of_range
    else invalid_argument

unfoldable pub parse_signed : List ℕ → Stoi
unfolding parse_unsigned
parse_signed [] = invalid_argument
parse_signed (c ∷ s) =
    if c == b'-'
    then parse_unsigned true s
    else if c == b'+'
    then parse_unsigned false s
    else parse_unsigned false (c ∷ s)

-- `std::stoi`, in base 10.
unfoldable pub stoi : List ℕ → Stoi
unfolding skip_spaces parse_signed
stoi s = parse_signed (skip_spaces s)

-- The body of the loop for a file's number: `none` is an exception that is not caught.
unfoldable pub larger : Stoi → ℕ → Option ℕ
larger invalid_argument largest = some largest
larger out_of_range largest = none
larger (parsed (pos k)) largest = if ltb largest k then some k else some largest
larger (parsed (negsuc k)) largest = some largest

-- The loop over the directory.
unfoldable pub max_file_number : List Entry → ℕ → Option ℕ
unfolding stoi larger
max_file_number [] largest = some largest
max_file_number (e ∷ es) largest =
    let skipped = max_file_number es largest in
    if e.is_regular_file
    then elim (larger (stoi e.filename) largest) [ none ↦ none | some k ↦ max_file_number es k ]
    else skipped

-- `std::to_string`; the first argument is fuel, and a number is fuel enough for itself.
unfoldable pub print : ℕ → ℕ → List ℕ → List ℕ
print zero v rest = rest
print (suc fuel) v rest =
    let more = print fuel (v / 10) ((b'0' + v % 10) ∷ rest) in
    if ltb v 10 then (b'0' + v) ∷ rest else more

abbrev pub extension : List ℕ
extension = b'.' ∷ b'm' ∷ b'c' ∷ b'a' ∷ b'p' ∷ []

unfoldable pub numbered : ℕ → List ℕ
unfolding print
numbered v = print (suc v) v extension

-- The name on a `filesystem_error`: "sdfsdf.mcap".
abbrev pub fallback : List ℕ
fallback = b's' ∷ b'd' ∷ b'f' ∷ b's' ∷ b'd' ∷ b'f' ∷ extension

-- `get_logfile_name`, with `none` for a directory that cannot be read. The overflow of the largest
-- `int` is undefined; it is `none` as a result too.
unfoldable pub get_logfile_name : Option (List Entry) → Option (List ℕ)
unfolding max_file_number numbered
get_logfile_name none = some fallback
get_logfile_name (some es) = elim (max_file_number es 0) [
  | none ↦ none
  | some k ↦ if ltb (suc k) (2 ^ 31) then some (numbered (suc k)) else none
]
