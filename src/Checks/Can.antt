-- ===== src/Checks/Can.antt =====
-- A message with two signals in a payload of two numbers.
use drivebrain_software.Base.{ℕ, ◌≡◌, refl, false, List, [], ◌∷◌, some, Dict, lookup}
use drivebrain_software.Base.Int.{pos, pos_part}
use drivebrain_software.Floats.Micros.{micro_floats}
use drivebrain_software.Can.Defs.{
  Signal, Value, int32_value, enum_value, CanFrame, encode_signals, encode_number, number_of,
}
use drivebrain_software.Can.Frames.{IsLaidOut}

abbrev pub Payload : Type 0
Payload = ℕ × ℕ

abbrev pub torque_signal : Signal micro_floats Payload
torque_signal = record {
  name = "torque";
  is_mux_value = false;
  switch_value = 0;
  decode = λ d. d.0;
  encode = λ r d. (r, d.1);
  raw_to_phys = pos;
  phys_to_raw = pos_part;
}

abbrev pub mode_signal : Signal micro_floats Payload
mode_signal = record torque_signal { name = "mode"; decode = λ d. d.1; encode = λ r d. (d.0, r) }

abbrev pub signals : List (Signal micro_floats Payload)
signals = torque_signal ∷ mode_signal ∷ []

abbrev fields : Dict (Value micro_floats Payload)
fields = ("torque", int32_value (pos 7)) ∷ ("mode", enum_value (pos 1)) ∷ []

fields-IsLaidOut : IsLaidOut fields signals
unfolding lookup number_of
fields-IsLaidOut = ((λ d. refl), ((λ r d. refl), tt), (tt, tt, tt))

encodes : encode_signals micro_floats Payload fields signals (0, 3) ≡ some (7_000_000, 3)
unfolding encode_signals lookup encode_number number_of
encodes = refl

abbrev pub frame : CanFrame micro_floats Payload
frame = record { can_id = 0; len = 0; payload = (0, 3) }
