-- ===== src/Vn/Driver.antt =====
-- The life of a `VNDriver`: `init`, the constructor, and the reads of `_start_recieve`. The serial
-- port and the search for packets in its bytes are libraries: parameters.
use drivebrain_software.Base.{
  ℕ, ◌≡◌, refl, ◌⊎◌, inl, inr, Bool, true, false, not, String, List, [], ◌∷◌, ◌++◌, Option, none,
  some, if◌then◌else◌,
}
use drivebrain_software.Base.Int.{ℤ}
use drivebrain_software.Floats.{Floats}
use drivebrain_software.Params.Db.{ParamMap}
use drivebrain_software.Vn.Defs.{Packet, VnMessage, handle_recieve, VnConfig, load_config}

-- What is written to the sensor: the options of the serial port, and `_configure_binary_outputs`.
pub data Command : Type 0 where
  baud_rate : ℤ → Command
  binary_outputs : (freq_divisor : ℤ) → Command

module _ (n : Floats) where
  pub record VnDriver : Type 0 where
    pub config : Option (VnConfig n)
    pub handler_registered : Bool
    pub device : Option String
    pub commands : List Command
    pub reading : Bool

  abbrev pub fresh : VnDriver
  fresh = record {
    config = none;
    handler_registered = false;
    device = none;
    commands = [];
    reading = false;
  }

  -- The part of `init` from the parameters on; `opens` says whether the port can be opened.
  unfoldable pub open_device : Bool → Option (String × VnConfig n) → VnDriver → VnDriver × Bool
  open_device opens none d = (d, false)
  open_device opens (some (device_name, config)) d =
      let configured = record d { config = some config; handler_registered = true } in
      if opens
      then (
        record configured {
          device = some device_name;
          commands =
              d.commands ++ (baud_rate config.baud_rate ∷ binary_outputs config.freq_divisor ∷ []);
        },
        true,
      )
      else (configured, false)

  unfoldable pub init : Bool → ParamMap n → VnDriver → VnDriver × Bool
  unfolding open_device load_config
  init opens params d = open_device opens (load_config n params) d

  -- The constructor, with the value that it leaves in `init_not_successful`.
  unfoldable pub construct : Bool → ParamMap n → VnDriver × Bool
  unfolding init
  construct opens params =
      let (d, ok) = init opens params fresh in (record d { reading = ok }, not ok)

  -- The reads start exactly if all four parameters are there and the port can be opened; only then
  -- has the device been sent anything, the rates of the configuration.
  pub construct_lem :
      (opens : Bool) (params : ParamMap n)
      → ((device : String) × (config : VnConfig n) × (load_config n params ≡ some (device, config))
          × (opens ≡ true)
          × ((construct opens params).0.reading ≡ true)
          × ((construct opens params).1 ≡ false)
          × ((construct opens params).0.commands
              ≡ baud_rate config.baud_rate ∷ binary_outputs config.freq_divisor ∷ []))
        ⊎ (((load_config n params ≡ none) ⊎ (opens ≡ false))
            × ((construct opens params).0.reading ≡ false)
            × ((construct opens params).1 ≡ true)
            × ((construct opens params).0.commands ≡ []))
  unfolding construct init
  construct_lem opens params = ends opens (load_config n params)
    where
      ends :
          (opens : Bool) (o : Option (String × VnConfig n))
          → let c = open_device opens o fresh in
            ((device : String) × (config : VnConfig n) × (o ≡ some (device, config))
              × (opens ≡ true)
              × (c.1 ≡ true)
              × (not c.1 ≡ false)
              × (c.0.commands
                  ≡ baud_rate config.baud_rate ∷ binary_outputs config.freq_divisor ∷ []))
            ⊎ (((o ≡ none) ⊎ (opens ≡ false))
                × (c.1 ≡ false)
                × (not c.1 ≡ true)
                × (c.0.commands ≡ []))
      ends opens none = inr (inl refl, refl, refl, refl)
      ends true (some (device, config)) = inl (device, config, refl, refl, refl, refl, refl)
      ends false (some (device, config)) = inr (inr refl, refl, refl, refl)

  -- `F` is the state of the search for packets, `S` what `log_proto_message` changes.
  module _ {F S : Type 0} (process_received_data : F → List ℕ → F × List (Packet n))
      (log_proto_message : VnMessage n → S → S) where
    unfoldable pub handle_packets : List (Packet n) → S → S
    handle_packets [] s = s
    handle_packets (p ∷ ps) s =
        handle_packets ps (elim (handle_recieve n p) [ none ↦ s | some m ↦ log_proto_message m s ])

    -- The reads of `_start_recieve`, each with its bytes, or `none` for an error, which ends them.
    unfoldable pub receive_all : List (Option (List ℕ)) → F → S → F × S
    unfolding handle_packets
    receive_all [] f s = (f, s)
    receive_all (none ∷ rest) f s = (f, s)
    receive_all (some bytes ∷ rest) f s =
        let (f', packets) = process_received_data f bytes in
        receive_all rest f' (handle_packets packets s)
