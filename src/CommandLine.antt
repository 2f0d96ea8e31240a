-- ===== src/CommandLine.antt =====
-- drivebrain_app/src/main.cpp: the arguments of the program.
use drivebrain_software.Base.{
  ◌≡◌, ◌↔◌, arith, Bool, true, false, not, ◌&&◌, String, List, [], ◌∷◌, Option, none, some, str_eq,
  if◌then◌else◌, All,
}

-- What `getopt` with "c:d:" returns in turn; `invalid` is '?' or another character.
pub data Opt : Type 0 where
  option_c : String → Opt
  option_d : String → Opt
  invalid : Opt

-- The variables `json_file` and `dbc_file`.
pub record Files : Type 0 where
  pub json_file : Option String
  pub dbc_file : Option String

module _ (exists : String → Bool) where
  -- `strlen(optarg) > 0 && exists(optarg)`
  unfoldable pub is_file : String → Bool
  is_file name = not (str_eq name "") && exists name

  -- The loop: the files after it, or `none` for a return of 1 from it.
  unfoldable pub parse_options : List Opt → Files → Option Files
  unfolding is_file
  parse_options [] f = some f
  parse_options (option_c name ∷ opts) f =
      let rest = parse_options opts (record f { json_file = some name }) in
      if is_file name then rest else none
  parse_options (option_d name ∷ opts) f =
      let rest = parse_options opts (record f { dbc_file = some name }) in
      if is_file name then rest else none
  parse_options (invalid ∷ opts) f = none

  both_given : Files → Bool
  both_given f = elim f.json_file [
    | none ↦ false
    | some _ ↦ elim f.dbc_file [ none ↦ false | some _ ↦ true ]
  ]

  -- `parse_arguments`, with the variables as `main` reads them after a return of 0.
  unfoldable pub parse_arguments : List Opt → Option Files
  unfolding parse_options both_given
  parse_arguments opts = elim (parse_options opts (record { json_file = none; dbc_file = none })) [
    | none ↦ none
    | some f ↦ if both_given f then some f else none
  ]

  -- The last file that an option names, after those before.
  abbrev pub last_json : List Opt → Option String → Option String
  last_json [] before = before
  last_json (option_c name ∷ opts) before = last_json opts (some name)
  last_json (option_d name ∷ opts) before = last_json opts before
  last_json (invalid ∷ opts) before = last_json opts before

  abbrev pub last_dbc : List Opt → Option String → Option String
  last_dbc [] before = before
  last_dbc (option_c name ∷ opts) before = last_dbc opts before
  last_dbc (option_d name ∷ opts) before = last_dbc opts (some name)
  last_dbc (invalid ∷ opts) before = last_dbc opts before

  abbrev pub IsGood : Opt → Type 0
  IsGood (option_c name) = is_file name ≡ true
  IsGood (option_d name) = is_file name ≡ true
  IsGood invalid = ⊥

  parse_options_iff :
      (opts : List Opt) (f g : Files)
      → (parse_options opts f ≡ some g) ↔ (
          All IsGood opts
          × (last_json opts f.json_file ≡ g.json_file)
          × (last_dbc opts f.dbc_file ≡ g.dbc_file))
  unfolding parse_options
  parse_options_iff [] f g = ground arith
  parse_options_iff (option_c name ∷ opts) f g =
      ground (arith, parse_options_iff opts (record f { json_file = some name }) g)
  parse_options_iff (option_d name ∷ opts) f g =
      ground (arith, parse_options_iff opts (record f { dbc_file = some name }) g)
  parse_options_iff (invalid ∷ opts) f g = ground arith

  -- The program goes on with two files exactly when every option names a file that exists and is
  -- not the empty name, and the files are the last ones given for `-c` and for `-d`.
  pub parse_arguments_iff :
      (opts : List Opt) (json dbc : String)
      → (parse_arguments opts ≡ some (record { json_file = some json; dbc_file = some dbc }))
        ↔ (All IsGood opts × (last_json opts none ≡ some json) × (last_dbc opts none ≡ some dbc))
  unfolding parse_arguments both_given
  parse_arguments_iff opts json dbc =
      let start : Files = record { json_file = none; dbc_file = none } in
      let both : Files = record { json_file = some json; dbc_file = some dbc } in
      ground (arith, parse_options_iff opts start both)
