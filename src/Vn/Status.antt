-- ===== src/Vn/Status.antt =====
-- The status word, and what the tracker makes of a packet.
use drivebrain_software.Base.{
  ℕ, ◌+◌, ◌*◌, ◌%◌, ◌<◌, ◌≡◌, refl, arith, Bool, true, false, List, [], ◌∷◌, none, some, length,
  ◌≤◌, ◌&&◌, Bool-cases, inl, inr,
}
use drivebrain_software.Base.Int.{pos}
use drivebrain_software.Floats.{Floats}
use drivebrain_software.Tracker.Messages.{vn_data}
use drivebrain_software.Tracker.Defs.{Tracker, handle_receive_protobuf_message}
use drivebrain_software.Vn.Defs.{
  InsBits, ins_bits, Packet, message_of, handle_recieve, Heading, try_initialize_heading,
}

-- The layout of the INS status register, with the bits that the driver skips: 3, 7 and 10 to 15.
abbrev pub status_word : InsBits → (bit3 bit7 high : ℕ) → ℕ
status_word b bit3 bit7 high =
    b.ins_mode
    + 4 * b.gnss_fix
    + 8 * bit3
    + 16 * b.error_imu
    + 32 * b.error_mag_pres
    + 64 * b.error_gnss
    + 128 * bit7
    + 256 * b.gnss_heading_ins
    + 512 * b.gnss_compass
    + 1024 * high

pub record IsBits (b : InsBits) : Type 0 where
  pub ins_mode_ok : b.ins_mode < 4
  pub gnss_fix_ok : b.gnss_fix < 2
  pub error_imu_ok : b.error_imu < 2
  pub error_mag_pres_ok : b.error_mag_pres < 2
  pub error_gnss_ok : b.error_gnss < 2
  pub gnss_heading_ins_ok : b.gnss_heading_ins < 2
  pub gnss_compass_ok : b.gnss_compass < 2

-- The decoding of the status word reads every field from its place, whatever the other bits are.
pub ins_bits-status_word :
    (b : InsBits) (bit3 bit7 high : ℕ)
    → IsBits b
    → bit3 < 2
    → bit7 < 2
    → ins_bits (status_word b bit3 bit7 high) ≡ b
unfolding ins_bits
ins_bits-status_word b bit3 bit7 high ok h3 h7 = ground arith

module _ (n : Floats) where
  open n use {Float}

  -- The headings that a sequence of calls sends to the sensor; a call has a heading and a mode.
  unfoldable pub sent_headings : List (Float × ℕ) → Heading n → List Float
  sent_headings [] h = []
  sent_headings ((mag, mode) ∷ calls) h =
      let (h', sent) = try_initialize_heading n mag mode h in
      let rest = sent_headings calls h' in elim sent [ none ↦ rest | some x ↦ x ∷ rest ]

  nothing_more :
      (calls : List (Float × ℕ)) (h : Heading n)
      → h.initial_heading_set ≡ true
      → sent_headings calls h ≡ []
  unfolding sent_headings try_initialize_heading
  nothing_more [] h set = refl
  nothing_more ((mag, mode) ∷ calls) h set = ground (arith, nothing_more calls h set)

  -- However often it is called, `_try_initialize_heading` sends at most one heading.
  pub length-sent_headings :
      (calls : List (Float × ℕ)) (h : Heading n) → length (sent_headings calls h) ≤ 1
  unfolding sent_headings try_initialize_heading
  length-sent_headings [] h = omega arith
  length-sent_headings ((mag, mode) ∷ calls) h = ground (
    arith,
    length-sent_headings calls h,
    nothing_more calls (record h { initial_heading_set = true }) refl,
  )

  -- The part of `log_proto_message` that is the tracker's: it gets the message of a packet, if there
  -- is one. The whole of it is `log_proto_message` of Feed.Defs.
  unfoldable pub receive_packet : ℕ → Packet n → Tracker n → Tracker n
  receive_packet now p t = elim (handle_recieve n p) [
    | none ↦ t
    | some m ↦ handle_receive_protobuf_message n now (vn_data m.read_by_tracker) t
  ]

  -- What the state of the tracker shows of the sensor is what the packet had.
  pub record Shows (p : Packet n) (t : Tracker n) : Type 0 where
    pub velocity : t.vehicle_state.current_body_vel_ms ≡ p.vel_body
    pub acceleration : t.vehicle_state.current_body_accel_mss ≡ p.linear_accel_body
    pub angular_rate : t.vehicle_state.current_angular_rate_rads ≡ p.angular_rate_data
    pub yaw : t.vehicle_state.current_ypr_rad.yaw ≡ p.ypr_data.x
    pub pitch : t.vehicle_state.current_ypr_rad.pitch ≡ p.ypr_data.y
    pub roll : t.vehicle_state.current_ypr_rad.roll ≡ p.ypr_data.z
    pub mode : t.vehicle_state.ins_status.status_mode ≡ pos (p.ins_status % 4)
    pub uncertainty : t.vehicle_state.ins_status.vel_uncertainty ≡ p.vel_uncertainty

  abbrev pub Received : (accepted : Bool) → Packet n → Tracker n → Tracker n → Type 0
  Received false p t t' = t' ≡ t
  Received true p t t' =
      Shows p t' × (t'.timestamp_array ≡ t.timestamp_array) × (t'.raw_input_data ≡ t.raw_input_data)

  -- A packet that is not binary or not of the configured format changes nothing; any other one
  -- leaves its velocity, acceleration, rates, attitude, mode and uncertainty in the vehicle state,
  -- and does not touch the timestamps of the CAN sensors or the raw inputs.
  pub receive_packet-Received :
      (now : ℕ) (p : Packet n) (t : Tracker n)
      → Received (p.is_binary && p.is_compatible) p t (receive_packet now p t)
  unfolding receive_packet handle_recieve message_of handle_receive_protobuf_message
  receive_packet-Received now p t = elim (Bool-cases p.is_binary) [
    | inr text ↦ rw text
    | inl binary ↦ elim (Bool-cases p.is_compatible) [
      | inr unknown ↦ rw (binary, unknown)
      | inl known ↦
          rw (binary, known)
            (
              record {
                velocity = refl;
                acceleration = refl;
                angular_rate = refl;
                yaw = refl;
                pitch = refl;
                roll = refl;
                mode = refl;
                uncertainty = refl;
              },
              refl,
              refl,
            )
    ]
  ]
