-- ===== src/Checks/Names.antt =====
-- A directory with "9.mcap", a directory "12", "notes" and, in the second run, "99999999999".
use drivebrain_software.Base.{ℕ, ◌≡◌, ◌<◌, ◌^◌, refl, true, false, List, [], ◌∷◌, some, All}
use drivebrain_software.Base.Int.{pos}
use drivebrain_software.Logger.Names.{
  Entry, out_of_range, parsed, stoi, get_logfile_name, skip_spaces, is_space, is_digit,
  starts_with_digit, digits, parse_unsigned, parse_signed, larger, max_file_number, print, numbered,
}
use drivebrain_software.Logger.Fresh.{IsFresh, get_logfile_name-IsFresh}

abbrev recordings : List Entry
recordings =
    record { is_regular_file = true; filename = b'9' ∷ b'.' ∷ b'm' ∷ b'c' ∷ b'a' ∷ b'p' ∷ [] }
    ∷ record { is_regular_file = false; filename = b'1' ∷ b'2' ∷ [] }
    ∷ record { is_regular_file = true; filename = b'n' ∷ b'o' ∷ b't' ∷ b'e' ∷ b's' ∷ [] }
    ∷ []

abbrev tenth : List ℕ
tenth = b'1' ∷ b'0' ∷ b'.' ∷ b'm' ∷ b'c' ∷ b'a' ∷ b'p' ∷ []

names_tenth : get_logfile_name (some recordings) ≡ some tenth
unfolding get_logfile_name max_file_number larger stoi skip_spaces is_space parse_signed
    parse_unsigned starts_with_digit digits is_digit numbered print
names_tenth = refl

get_logfile_name-IsFresh_example :
    ((v : ℕ) × (v < 2 ^ 31) × (stoi tenth ≡ parsed (pos v))) × All (IsFresh tenth) recordings
get_logfile_name-IsFresh_example = get_logfile_name-IsFresh recordings tenth names_tenth

abbrev long_name : Entry
long_name = record {
  is_regular_file = true;
  filename = b'9' ∷ b'9' ∷ b'9' ∷ b'9' ∷ b'9' ∷ b'9' ∷ b'9' ∷ b'9' ∷ b'9' ∷ b'9' ∷ b'9' ∷ [];
}

too_long : stoi long_name.filename ≡ out_of_range
unfolding stoi skip_spaces is_space parse_signed parse_unsigned starts_with_digit digits is_digit
too_long = refl
