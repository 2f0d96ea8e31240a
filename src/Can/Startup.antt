-- ===== src/Can/Startup.antt =====
-- A CAN driver that cannot start leaves nothing behind.
use drivebrain_software.Base.{◌≡◌, refl, ◌⊎◌, inl, inr, Bool, true, false, List, Option, none, some}
use drivebrain_software.Base.Int.{pos, negsuc}
use drivebrain_software.Floats.{Floats}
use drivebrain_software.Can.Defs.{DbcMessage, add_messages}
use drivebrain_software.Can.Driver.{Setup, Driver, init, init_tables_from}

module _ {n : Floats} {D : Type 0} where
  -- Every call succeeded, and the file gave these messages.
  abbrev pub Works : Setup n D → List (DbcMessage n D) → Type 0
  Works c messages =
      (c.socket ≡ true)
      × (c.get_index ≡ true)
      × (c.bind ≡ true)
      × (c.set_non_blocking ≡ true)
      × (c.dbc ≡ some (some messages))

  -- The driver is as before, and no socket is open.
  abbrev pub IsUndone : Driver n D → Driver n D → Type 0
  IsUndone d d' = (d'.socket_open ≡ false) × (d'.tables ≡ d.tables) × (d'.has_reader ≡ d.has_reader)

  abbrev pub Outcome : Setup n D → Driver n D → Type 0
  Outcome c d =
      ((messages : List (DbcMessage n D)) × Works c messages
        × (init n D c d ≡ (
          record {
            socket_open = true;
            tables = add_messages n D messages d.tables;
            has_reader = true;
          },
          pos 0,
        )))
      ⊎ (((messages : List (DbcMessage n D)) → ¬ Works c messages)
          × ((init n D c d).1 ≡ negsuc 0)
          × IsUndone d (init n D c d).0)

  outcome :
      (socket get_index bind set_non_blocking : Bool)
      (dbc : Option (Option (List (DbcMessage n D)))) (d : Driver n D)
      → d.socket_open ≡ false
      → Outcome
          (record {
            socket = socket;
            get_index = get_index;
            bind = bind;
            set_non_blocking = set_non_blocking;
            dbc = dbc;
          })
          d
  unfolding init init_tables_from
  outcome false get_index bind non_blocking dbc d closed =
      inr (λ messages (a, _, _, _, _). cc, refl, (closed, refl, refl))
  outcome true false bind non_blocking dbc d closed =
      inr (λ messages (_, a, _, _, _). cc, refl, (refl, refl, refl))
  outcome true true false non_blocking dbc d closed =
      inr (λ messages (_, _, a, _, _). cc, refl, (refl, refl, refl))
  outcome true true true false dbc d closed =
      inr (λ messages (_, _, _, a, _). cc, refl, (refl, refl, refl))
  outcome true true true true none d closed =
      inr (λ messages (_, _, _, _, a). cc, refl, (refl, refl, refl))
  outcome true true true true (some none) d closed =
      inr (λ messages (_, _, _, _, a). cc, refl, (refl, refl, refl))
  outcome true true true true (some (some messages)) d closed =
      inl (messages, (refl, refl, refl, refl, refl), refl)

  -- From a driver with no socket: `_init` succeeds exactly when all system calls do and the DBC file
  -- can be opened and parsed. Then the socket is open, the messages are in the tables and the
  -- reader runs; otherwise the result is -1, and whichever call failed, no socket is left open, the
  -- tables are as before and no reader was started.
  pub init_lem : (c : Setup n D) (d : Driver n D) → d.socket_open ≡ false → Outcome c d
  init_lem c d closed = outcome c.socket c.get_index c.bind c.set_non_blocking c.dbc d closed
