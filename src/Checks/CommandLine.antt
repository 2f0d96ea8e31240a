-- ===== src/Checks/CommandLine.antt =====
-- `./drivebrain -c a.json -d b.dbc -c c.json`, where all three files exist.
use drivebrain_software.Base.{◌≡◌, ◌↔◌, true, List, [], ◌∷◌, none, some, All}
use drivebrain_software.CommandLine.{
  Opt, option_c, option_d, parse_arguments, IsGood, last_json, last_dbc, parse_arguments_iff,
}

abbrev options : List Opt
options = option_c "a.json" ∷ option_d "b.dbc" ∷ option_c "c.json" ∷ []

parse_arguments_iff_example :
    (parse_arguments (λ name. true) options
      ≡ some (record { json_file = some "c.json"; dbc_file = some "b.dbc" }))
    ↔ (All (IsGood (λ name. true)) options
        × (last_json (λ name. true) options none ≡ some "c.json")
        × (last_dbc (λ name. true) options none ≡ some "b.dbc"))
parse_arguments_iff_example = parse_arguments_iff (λ name. true) options "c.json" "b.dbc"
