-- ===== src/Eth/Buffer.antt =====
-- `ETHSendComms::_send_message`: the buffer that all messages share. A message is its bytes. The
-- network thread (boost::asio) reads the buffer when it sends a datagram, at once or later.
use mathlib.Core.List.{append_assoc, append-nil}
use drivebrain_software.Base.{
  ℕ, zero, suc, ◌≤◌, ◌≡◌, refl, ap, sym, ◌∙◌, arith, List, [], ◌∷◌, ◌++◌, Option, none, some, map,
  length, ltb, if◌then◌else◌, All, All-append,
}

module _ {ℓ} {A : Type ℓ} where
  unfoldable pub take : ℕ → List A → List A
  take zero xs = []
  take (suc n) [] = []
  take (suc n) (x ∷ xs) = x ∷ take n xs

  unfoldable pub drop : ℕ → List A → List A
  drop zero xs = xs
  drop (suc n) [] = []
  drop (suc n) (x ∷ xs) = drop n xs

  take-append : (xs ys : List A) → take (length xs) (xs ++ ys) ≡ xs
  unfolding take
  take-append [] ys = refl
  take-append (x ∷ xs) ys = ap (λ l. x ∷ l) (take-append xs ys)

  take-append_le : (n : ℕ) (xs ys : List A) → n ≤ length xs → take n (xs ++ ys) ≡ take n xs
  unfolding take
  take-append_le zero xs ys h = refl
  take-append_le (suc n) [] ys h = absurd (omega arith)
  take-append_le (suc n) (x ∷ xs) ys h = ap (λ l. x ∷ l) (take-append_le n xs ys (omega arith))

  take-length : (xs : List A) → take (length xs) xs ≡ xs
  take-length xs = ap (take (length xs)) (sym (append-nil xs)) ∙ take-append xs []

-- The size of `_send_buffer`.
abbrev pub buffer_size : ℕ
buffer_size = 4096

-- `_send_buffer`, the sizes given to `async_send_to` that are not yet sent, and the datagrams sent.
pub record Socket : Type 0 where
  pub send_buffer : List ℕ
  pub pending : List ℕ
  pub datagrams : List (List ℕ)

-- `SerializeToArray` writes at the front of the buffer, and past its end if the message is longer
-- than the buffer: `none`.
unfoldable pub send_message : List ℕ → Socket → Option Socket
send_message bytes s =
    if ltb buffer_size (length bytes)
    then none
    else some (record s {
      send_buffer = bytes ++ drop (length bytes) s.send_buffer;
      pending = s.pending ++ (length bytes ∷ []);
    })

-- The loop over `temp_msg_queue`.
unfoldable pub send_batch : List (List ℕ) → Socket → Option Socket
unfolding send_message
send_batch [] s = some s
send_batch (m ∷ ms) s = elim (send_message m s) [ none ↦ none | some t ↦ send_batch ms t ]

-- The network thread sends all that is pending.
unfoldable pub transmit : Socket → Socket
transmit s = record s {
  pending = [];
  datagrams = s.datagrams ++ map (λ n. take n s.send_buffer) s.pending;
}

abbrev pub Fits : List ℕ → Type 0
Fits m = length m ≤ buffer_size

send_message-Fits :
    (m : List ℕ) (s : Socket)
    → Fits m
    → send_message m s
      ≡ some (record s {
        send_buffer = m ++ drop (length m) s.send_buffer;
        pending = s.pending ++ (length m ∷ []);
      })
unfolding send_message
send_message-Fits m s fits = ground arith

-- The two threads in turn: each message is sent before the next one is written.
unfoldable pub send_in_turn : List (List ℕ) → Socket → Option Socket
send_in_turn [] s = some s
send_in_turn (m ∷ ms) s = elim (send_message m s) [
  | none ↦ none
  | some t ↦ send_in_turn ms (transmit t)
]

-- The socket after a message that fits.
abbrev after : List ℕ → Socket → Socket
after m s = record s {
  send_buffer = m ++ drop (length m) s.send_buffer;
  pending = s.pending ++ (length m ∷ []);
}

send_in_turn_next :
    (m : List ℕ) (ms : List (List ℕ)) (s : Socket)
    → Fits m
    → send_in_turn (m ∷ ms) s ≡ send_in_turn ms (transmit (after m s))
unfolding send_in_turn
send_in_turn_next m ms s fit = rw (send_message-Fits m s fit, send_in_turn)

send_batch_next :
    (m : List ℕ) (ms : List (List ℕ)) (s : Socket)
    → Fits m
    → send_batch (m ∷ ms) s ≡ send_batch ms (after m s)
unfolding send_batch
send_batch_next m ms s fit = rw (send_message-Fits m s fit, send_batch)

transmit_idle : (s : Socket) → (transmit s).pending ≡ []
unfolding transmit
transmit_idle s = refl

transmit-after :
    (m : List ℕ) (s : Socket)
    → s.pending ≡ []
    → (transmit (after m s)).datagrams ≡ s.datagrams ++ (m ∷ [])
unfolding transmit
transmit-after m s idle =
    rw idle (ap (λ d. s.datagrams ++ (d ∷ [])) (take-append m (drop (length m) s.send_buffer)))

send_in_turn_lem :
    (ms : List (List ℕ)) (s : Socket)
    → s.pending ≡ []
    → All Fits ms
    → (t : Socket) × (send_in_turn ms s ≡ some t) × (t.datagrams ≡ s.datagrams ++ ms)
unfolding send_in_turn
send_in_turn_lem [] s idle fits = (s, refl, sym (append-nil s.datagrams))
send_in_turn_lem (m ∷ ms) s idle (fit, fits) =
    let (t, e, all) = send_in_turn_lem ms (transmit (after m s)) (transmit_idle (after m s)) fits in
    (
      t,
      send_in_turn_next m ms s fit ∙ e,
      all ∙ ap (λ l. l ++ ms) (transmit-after m s idle) ∙ append_assoc s.datagrams (m ∷ []) ms,
    )

-- The socket after a batch: the last message stands at the front of the buffer.
abbrev filled : List (List ℕ) → List ℕ → List ℕ → Socket → Socket
filled ms last rest s = record s {
  send_buffer = last ++ rest;
  pending = s.pending ++ (map length ms ++ (length last ∷ []));
}

send_batch-last :
    (ms : List (List ℕ)) (last : List ℕ) (s : Socket)
    → All Fits ms
    → Fits last
    → (rest : List ℕ) × (send_batch (ms ++ (last ∷ [])) s ≡ some (filled ms last rest s))
unfolding send_batch
send_batch-last [] last s fits fit =
    (drop (length last) s.send_buffer, send_batch_next last [] s fit)
send_batch-last (m ∷ ms) last s (f, fits) fit =
    let (rest, e) = send_batch-last ms last (after m s) fits fit in
    (
      rest,
      send_batch_next m (ms ++ (last ∷ [])) s f
          ∙ e
          ∙ ap (λ p. some (record s { send_buffer = last ++ rest; pending = p }))
              (append_assoc s.pending (length m ∷ []) (map length ms ++ (length last ∷ []))),
    )

abbrev NotLonger : List ℕ → List ℕ → Type 0
NotLonger last m = length m ≤ length last

fronts :
    (ms : List (List ℕ)) (last rest : List ℕ)
    → All (NotLonger last) ms
    → map (λ n. take n (last ++ rest)) (map length ms ++ (length last ∷ []))
      ≡ map (λ m. take (length m) last) ms ++ (last ∷ [])
fronts [] last rest short = ap (λ d. d ∷ []) (take-append last rest)
fronts (m ∷ ms) last rest (s, short) =
    cc (take-append_le (length m) last rest s, fronts ms last rest short)

transmit-filled :
    (ms : List (List ℕ)) (last rest : List ℕ) (s : Socket)
    → s.pending ≡ []
    → All (NotLonger last) ms
    → (transmit (filled ms last rest s)).datagrams
      ≡ s.datagrams ++ (map (λ m. take (length m) last) ms ++ (last ∷ []))
unfolding transmit
transmit-filled ms last rest s idle short =
    rw idle (ap (λ d. s.datagrams ++ d) (fronts ms last rest short))

-- Messages of at most 4096 bytes, written while nothing is pending. If the network thread sends each
-- before the next is written, the datagrams are the messages, in order. If it comes to send only after
-- the whole batch was written, and no message is longer than the last, then every datagram is a
-- front of the last message, as long as its own message was: the others are lost.
pub datagrams_lem :
    (ms : List (List ℕ)) (last : List ℕ) (s : Socket)
    → s.pending ≡ []
    → All Fits ms
    → Fits last
    → All (λ m. length m ≤ length last) ms
    → ((t : Socket) × (send_in_turn (ms ++ (last ∷ [])) s ≡ some t)
        × (t.datagrams ≡ s.datagrams ++ (ms ++ (last ∷ []))))
      × ((t : Socket) × (send_batch (ms ++ (last ∷ [])) s ≡ some t)
          × ((transmit t).datagrams
              ≡ s.datagrams ++ (map (λ m. take (length m) last) ms ++ (last ∷ []))))
datagrams_lem ms last s idle fits fit short =
    let (rest, e) = send_batch-last ms last s fits fit in
    (
      send_in_turn_lem (ms ++ (last ∷ [])) s idle (All-append Fits ms (last ∷ []) fits (fit, tt)),
      (filled ms last rest s, e, transmit-filled ms last rest s idle short),
    )
