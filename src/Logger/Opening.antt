-- ===== src/Logger/Opening.antt =====
-- `open_new_mcap`: the choice of a name, and the opening of the file.
use Prim.Native.String.{String, ◌++◌}
use drivebrain_software.Base.{ℕ, Bool, List, Option, none, some}
use drivebrain_software.Base.Int.{ℤ}
use drivebrain_software.Logger.Defs.{Logger, open_named_mcap}
use drivebrain_software.Logger.Names.{Entry, get_logfile_name}

-- `open_new_mcap`, with what the directory holds (`none` if it cannot be read) and the text of a
-- name; `none` is the exception of `get_logfile_name`, which is called twice, on the same directory.
unfoldable pub open_new_mcap :
    (directory : Option (List Entry)) (spell : List ℕ → String)
    → Bool
    → List (String × ℕ)
    → ℕ
    → String
    → Logger
    → Option (Logger × ℤ)
unfolding get_logfile_name open_named_mcap
open_new_mcap directory spell opened channels now initial_params s =
    elim (get_logfile_name directory) [
      | none ↦ none
      | some name ↦ some (
          open_named_mcap ("/home/nixos/recordings/" ++ spell name) opened channels now
            initial_params s)
    ]
