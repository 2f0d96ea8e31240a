-- ===== src/Checks/Sim.antt =====
-- Runs of the link to the simulation.
use Prim.Native.String.{String}
use drivebrain_software.Base.{
  ℕ, Bool, true, List, [], ◌∷◌, Option, none, some, str_eq, if◌then◌else◌,
}
use drivebrain_software.Sim.Defs.{Recv, timed_out, terminated, failed, multipart}

-- One known type, a parser that refuses the empty body.
abbrev pub find : String → Option ℕ
find name = if str_eq name "hytech_msgs.VCRData_s" then some 1 else none

abbrev pub parse : ℕ → String → Option String
parse desc body = if str_eq body "" then none else some body

abbrev pub rounds : List (Bool × Recv)
rounds =
    (true, timed_out)
    ∷ (true, multipart ("hytech_msgs.VCRData_s" ∷ "one" ∷ []))
    ∷ (true, multipart ("one part" ∷ []))
    ∷ (true, failed)
    ∷ (true, multipart ("unknown" ∷ "two" ∷ []))
    ∷ (true, terminated)
    ∷ []
