-- ===== src/WebSocket/Bounds.antt =====
-- The limits of `WSState` in include/lohin/websocket.hpp, and the rounds of `try_parse`.
use osodio.Prelude.{
  Bytes, ℕ, zero, suc, ◌+◌, ◌-◌, ◌/◌, ◌%◌, ◌≤◌, ◌<◌, ◌≡◌, refl, Bool, true, false, not, ◌&&◌, ◌||◌,
  [], ◌∷◌, ◌++◌, ltb, leb, ◌==◌, if◌then◌else◌, length, take, drop, length-append, length-drop,
  arith, Bool-cases, inl, inr,
}
use osodio.WebSocket.State.{
  WsState, Round, stop, again, Length, waiting, malformed, known, max_frame_payload,
  max_message_size, max_pending_frames, deliver, data_frame, dispatch, payload_of, take_frame,
  check_length, read_length, reserved, round, continue_with, try_parse_rounds,
}
use osodio.WebSocket.Frame.{unmask}

-- At most 256 messages wait, and what is assembled has at most 16 MB.
abbrev pub IsBounded : WsState → Type 0
IsBounded s = (length s.pending ≤ max_pending_frames) × (length s.frag_buf ≤ max_message_size)

-- A round is all right on a state that it leaves, with at most `n` bytes in the buffer if it goes on.
abbrev RoundOk : ℕ → Round → Type 0
RoundOk n (stop s) = IsBounded s
RoundOk n (again s) = IsBounded s × (length s.read_buf ≤ n)

module _ (n : ℕ) (s : WsState) (room : length s.pending < max_pending_frames)
    (small : length s.frag_buf ≤ max_message_size) (short : length s.read_buf ≤ n) where
  deliver-room :
      (opcode : ℕ) (payload : Bytes)
      → length (deliver opcode payload s).pending ≤ max_pending_frames
  deliver-room opcode payload =
      omega (arith, length-append s.pending (record { opcode = opcode; content = payload } ∷ []))

  data_frame-RoundOk :
      (fin : Bool) (opcode : ℕ) (payload : Bytes)
      → length payload ≤ max_frame_payload
      → RoundOk n (data_frame fin opcode payload s)
  unfolding data_frame
  data_frame-RoundOk fin opcode payload h = ground (
    arith,
    deliver-room opcode payload,
    deliver-room s.frag_opcode (s.frag_buf ++ payload),
    length-append s.frag_buf payload,
  )

  dispatch-RoundOk :
      (fin : Bool) (opcode : ℕ) (payload : Bytes)
      → length payload ≤ max_frame_payload
      → RoundOk n (dispatch fin opcode payload s)
  unfolding dispatch
  dispatch-RoundOk fin opcode payload h = ground (
    arith,
    deliver-room 0x8 payload,
    deliver-room 0xA payload,
    data_frame-RoundOk fin opcode payload h,
  )

length-take_le : (k : ℕ) (s : Bytes) → length (take k s) ≤ k
length-take_le zero s = omega arith
length-take_le (suc k) [] = omega arith
length-take_le (suc k) (c ∷ s) = omega (arith, length-take_le k s)

length-unmask : (key : Bytes) (i : ℕ) (s : Bytes) → length (unmask key i s) ≡ length s
unfolding unmask
length-unmask key i [] = refl
length-unmask key i (c ∷ s) = omega (arith, length-unmask key (suc i) s)

length-payload_of :
    (masked : Bool) (hdr n : ℕ) (buf : Bytes) → length (payload_of masked hdr n buf) ≤ n
length-payload_of true hdr n buf = omega (
  arith,
  length-unmask (take 4 (drop (hdr - 4) buf)) 0 (take n (drop hdr buf)),
  length-take_le n (drop hdr buf),
)
length-payload_of false hdr n buf = length-take_le n (drop hdr buf)

abbrev LengthOk : Length → Type 0
LengthOk (known n hdr) = 2 ≤ hdr
LengthOk _ = Unit

read_length-LengthOk : (len7 : ℕ) (rest : Bytes) → LengthOk (read_length len7 rest)
unfolding read_length
read_length-LengthOk len7 rest = ground arith

module _ (s : WsState) (bounded : IsBounded s) where
  take_frame-RoundOk :
      (fin : Bool) (opcode : ℕ) (masked : Bool) (n hdr : ℕ)
      → n ≤ max_frame_payload
      → 2 ≤ hdr
      → RoundOk (length s.read_buf - 2) (take_frame fin opcode masked n hdr s)
  unfolding take_frame
  take_frame-RoundOk fin opcode masked n hdr h two =
      let s' : WsState = record s { read_buf = drop (hdr + n) s.read_buf } in
      elim (Bool-cases (ltb (length s.read_buf) (hdr + n))) [
        | inl e ↦ rw e bounded
        | inr e ↦ elim (Bool-cases (leb max_pending_frames (length s.pending))) [
          | inl f ↦ rw (e, f) bounded
          | inr f ↦
              rw (e, f)
                (dispatch-RoundOk (length s.read_buf - 2) s' (ground arith) bounded.1
                  (omega (arith, length-drop (hdr + n) s.read_buf)) fin opcode
                  (payload_of masked hdr n s.read_buf)
                  (omega (arith, length-payload_of masked hdr n s.read_buf)))
        ]
      ]

  check_length-RoundOk :
      (fin : Bool) (opcode : ℕ) (masked : Bool) (size : Length)
      → LengthOk size
      → RoundOk (length s.read_buf - 2) (check_length fin opcode masked size s)
  unfolding check_length
  check_length-RoundOk fin opcode masked waiting h = bounded
  check_length-RoundOk fin opcode masked malformed h = bounded
  check_length-RoundOk fin opcode masked (known n hdr) h =
      let taken : n ≤ max_frame_payload
          → RoundOk (length s.read_buf - 2)
              (take_frame fin opcode masked n (if masked then hdr + 4 else hdr) s) =
        λ small.
          take_frame-RoundOk fin opcode masked n (if masked then hdr + 4 else hdr) small
            (ground arith) in
      elim (Bool-cases (leb 8 opcode && (not fin || ltb 125 n))) [
        | inl e ↦ rw e bounded
        | inr e ↦ elim (Bool-cases (ltb max_frame_payload n)) [
          | inl f ↦ rw (e, f) bounded
          | inr f ↦ rw (e, f) (taken (ground arith))
        ]
      ]

  round-RoundOk : (buf : Bytes) → RoundOk (length s.read_buf - 2) (round buf s)
  unfolding round
  round-RoundOk [] = bounded
  round-RoundOk (p0 ∷ []) = bounded
  round-RoundOk (p0 ∷ p1 ∷ rest) =
      let checked =
        check_length-RoundOk (leb 0x80 p0) (p0 % 16) (leb 0x80 p1) (read_length (p1 % 128) rest)
          (read_length-LengthOk (p1 % 128) rest) in
      elim (Bool-cases (p0 / 16 % 8 == 0)) [
        | inl e ↦ elim (Bool-cases (reserved (p0 % 16))) [
          | inl f ↦ rw (e, f) bounded
          | inr f ↦ rw (e, f) checked
        ]
        | inr e ↦ rw e bounded
      ]

round-short : (s : WsState) → length s.read_buf < 2 → round s.read_buf s ≡ stop s
unfolding round
round-short s h = short s.read_buf h
  where
    short : (buf : Bytes) → length buf < 2 → round buf s ≡ stop s
    short [] h = refl
    short (p0 ∷ []) h = refl
    short (p0 ∷ p1 ∷ rest) h = absurd (omega arith)

continue_with-same :
    (n : ℕ) (r : Round) (go go' : WsState → WsState)
    → RoundOk n r
    → ((s : WsState) → IsBounded s → length s.read_buf ≤ n → go s ≡ go' s)
    → continue_with go r ≡ continue_with go' r
continue_with-same n (stop s) go go' h k = refl
continue_with-same n (again s) go go' (h, l) k = k s h l

-- One round for each byte in the buffer and one more are enough: with any more rounds the loop does
-- the same, so it has come to its end.
pub try_parse_rounds-enough :
    (rounds more : ℕ) (s : WsState)
    → IsBounded s
    → length s.read_buf < rounds
    → length s.read_buf < more
    → try_parse_rounds more s ≡ try_parse_rounds rounds s
unfolding try_parse_rounds
try_parse_rounds-enough zero more s h l m = absurd (omega arith)
try_parse_rounds-enough (suc rounds) zero s h l m = absurd (omega arith)
try_parse_rounds-enough (suc rounds) (suc more) s h l m =
    elim (Bool-cases (ltb (length s.read_buf) 2)) [
      | inl e ↦ rw (round-short s (ground arith)) refl
      | inr e ↦
          continue_with-same (length s.read_buf - 2) (round s.read_buf s) (try_parse_rounds more)
            (try_parse_rounds rounds) (round-RoundOk s h s.read_buf)
            λ s' h' l'. try_parse_rounds-enough rounds more s' h' (ground arith) (ground arith)
    ]
