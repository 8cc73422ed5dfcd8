-- ===== src/WebSocket/Delivery.antt =====
-- What `try_parse` of include/lohin/websocket.hpp makes of the frames of `build_frame`.
use mathlib.Core.List.{append_assoc, append-nil}
use Prim.Native.Nat.{bit_or}
use osodio.Bits.{bit_or-shift}
use osodio.Prelude.{
  Bytes, ℕ, zero, suc, ◌+◌, ◌/◌, ◌%◌, ◌^◌, ◌≤◌, ◌<◌, ◌≡◌, refl, Bool, true, false, not, ◌||◌, List,
  [], ◌∷◌, ◌++◌, ltb, leb, ◌==◌, length, take, drop, length-append, drop-drop, sym, All, arith,
  Bool-cases, inl, inr, ◌∙◌, ap,
}
use osodio.WebSocket.Frame.{size_bytes, size_field, build_frame}
use osodio.WebSocket.State.{
  WsMessage, WsState, stop, again, known, max_frame_payload, max_pending_frames, deliver,
  data_frame, dispatch, take_frame, check_length, read_length, big_endian, round, try_parse_rounds,
  try_parse, feed,
}

-- The three forms of a length are read back.
read_length-size_field :
    (n : ℕ) (payload : Bytes)
    → n < 2 ^ 63
    → (len7 : ℕ) × (more : Bytes) × (size_field n ≡ len7 ∷ more)
      × (len7 < 128)
      × (read_length len7 (more ++ payload) ≡ known n (suc (suc (length more))))
unfolding size_field
read_length-size_field n payload h = elim (Bool-cases (ltb n 126)) [
  | inl e ↦ (n, [], rw e refl, ground arith, unfold read_length in ground arith)
  | inr e ↦ elim (Bool-cases (ltb n 65536)) [
    | inl f ↦ (
      126,
      size_bytes 2 n,
      rw (e, f) refl,
      omega arith,
      unfold read_length size_bytes big_endian in (ground arith),
    )
    | inr f ↦ (
      127,
      size_bytes 8 n,
      rw (e, f) refl,
      omega arith,
      unfold read_length size_bytes big_endian in (ground arith),
    )
  ]
]

-- A state between messages, whose buffer holds all of a frame and what comes after it.
abbrev IsIdle : WsState → Type 0
IsIdle s = (s.frag_buf ≡ []) × (s.frag_opcode ≡ 0) × (length s.pending < max_pending_frames)

take-all : (s t : Bytes) → take (length s) (s ++ t) ≡ s
take-all [] t = refl
take-all (c ∷ s) t = ap (λ u. c ∷ u) (take-all s t)

drop-all : (s t : Bytes) → drop (length s) (s ++ t) ≡ t
drop-all [] t = refl
drop-all (c ∷ s) t = drop-all s t

-- The length and the payload behind the first two bytes of a frame.
take_frame-whole :
    (fin : Bool) (opcode p0 len7 : ℕ) (more payload rest : Bytes) (s : WsState)
    → s.read_buf ≡ p0 ∷ len7 ∷ (more ++ (payload ++ rest))
    → length s.pending < max_pending_frames
    → take_frame fin opcode false (length payload) (suc (suc (length more))) s
      ≡ dispatch fin opcode payload (record s { read_buf = rest })
unfolding take_frame
take_frame-whole fin opcode p0 len7 more payload rest s e room =
    let head = p0 ∷ len7 ∷ more in
    let behind : drop (length head) s.read_buf ≡ payload ++ rest =
      ap (drop (length head)) e ∙ drop-all head (payload ++ rest) in
    let size : length s.read_buf ≡ suc (suc (length more)) + (length payload + length rest) =
      ap length e
      ∙ omega (arith, length-append more (payload ++ rest), length-append payload rest) in
    let taken : take (length payload) (drop (suc (suc (length more))) s.read_buf) ≡ payload =
      ap (take (length payload)) behind ∙ take-all payload rest in
    let left : drop (suc (suc (length more)) + length payload) s.read_buf ≡ rest =
      sym (drop-drop (suc (suc (length more))) (length payload) s.read_buf)
      ∙ ap (drop (length payload)) behind
      ∙ drop-all payload rest in
    let enough : ltb (length s.read_buf) (suc (suc (length more)) + length payload) ≡ false =
      ground arith in
    let free : leb 256 (length s.pending) ≡ false = ground arith in
    rw (enough, free, taken, left) refl

data-frame-delivered :
    (opcode : ℕ) (payload : Bytes) (s : WsState)
    → 1 ≤ opcode
    → opcode ≤ 2
    → s.frag_buf ≡ []
    → s.frag_opcode ≡ 0
    → dispatch true opcode payload s ≡ again (deliver opcode payload s)
unfolding dispatch data_frame
data-frame-delivered opcode payload s lo hi e f =
    let none_open : (ltb 0 (length s.frag_buf) || not (s.frag_opcode == 0)) ≡ false =
      rw (e, f) refl in
    let other : (opcode == 0) ≡ false = ground arith in
    let a : (opcode == 0x8) ≡ false = ground arith in
    let b : (opcode == 0x9) ≡ false = ground arith in
    let c : (opcode == 0xA) ≡ false = ground arith in rw (a, b, c, other, none_open) refl

-- A frame whose length is read, as a round of the loop.
round-frame :
    (opcode len7 : ℕ) (more payload rest : Bytes) (s : WsState)
    → 1 ≤ opcode
    → opcode ≤ 2
    → length payload ≤ max_frame_payload
    → len7 < 128
    → read_length len7 (more ++ (payload ++ rest))
      ≡ known (length payload) (suc (suc (length more)))
    → IsIdle s
    → s.read_buf ≡ (128 + opcode) ∷ len7 ∷ (more ++ (payload ++ rest))
    → round ((128 + opcode) ∷ len7 ∷ (more ++ (payload ++ rest))) s
      ≡ again (deliver opcode payload (record s { read_buf = rest }))
unfolding round check_length
round-frame opcode len7 more payload rest s lo hi small seven read (no_frag, no_opcode, room) e =
    let rsv : ((128 + opcode) / 16 % 8 == 0) ≡ true = ground arith in
    let code : (128 + opcode) % 16 ≡ opcode = omega arith in
    let fin : leb 0x80 (128 + opcode) ≡ true = ground arith in
    let unmasked : leb 0x80 len7 ≡ false = ground arith in
    let seven' : len7 % 128 ≡ len7 = omega arith in
    let ordinary : leb 8 opcode ≡ false = ground arith in
    let known_code : ltb 2 opcode ≡ false = ground arith in
    let fits : ltb max_frame_payload (length payload) ≡ false = ground arith in
    rw (rsv, code, fin, unmasked, seven', ordinary, known_code, read, ordinary, fits)
      (take_frame-whole true opcode (128 + opcode) len7 more payload rest s e room
        ∙ data-frame-delivered opcode payload (record s { read_buf = rest }) lo hi no_frag
            no_opcode)

-- One whole frame in front of the rest of the buffer.
round-build_frame :
    (opcode : ℕ) (payload rest : Bytes) (s : WsState)
    → 1 ≤ opcode
    → opcode ≤ 2
    → length payload ≤ max_frame_payload
    → IsIdle s
    → s.read_buf ≡ build_frame payload opcode true ++ rest
    → round s.read_buf s ≡ again (deliver opcode payload (record s { read_buf = rest }))
unfolding build_frame
round-build_frame opcode payload rest s lo hi small idle e =
    let (len7, more, field, seven, read) =
      read_length-size_field (length payload) (payload ++ rest) (omega arith) in
    let first : bit_or 0x80 opcode ≡ 128 + opcode = bit_or-shift 7 1 opcode (omega arith) in
    let whole : s.read_buf ≡ (128 + opcode) ∷ len7 ∷ (more ++ (payload ++ rest)) =
      e
      ∙ rw (first, field) (ap (λ t. (128 + opcode) ∷ len7 ∷ t) (append_assoc more payload rest)) in
    ap (λ b. round b s) whole
    ∙ round-frame opcode len7 more payload rest s lo hi small seven read idle whole

-- The frames of messages, one after another.
unfoldable pub frames : List WsMessage → Bytes
frames [] = []
frames (m ∷ ms) = build_frame m.content m.opcode true ++ frames ms

-- A text or a binary message of at most 16 MB.
abbrev pub IsMessage : WsMessage → Type 0
IsMessage m = (1 ≤ m.opcode) × (m.opcode ≤ 2) × (length m.content ≤ max_frame_payload)

build_frame-nonempty :
    (payload : Bytes) (opcode : ℕ) (rest : Bytes)
    → length rest < length (build_frame payload opcode true ++ rest)
unfolding build_frame
build_frame-nonempty payload opcode rest =
    omega (arith, length-append (size_field (length payload) ++ payload) rest)

try_parse_rounds-frames :
    (rounds : ℕ) (ms : List WsMessage) (s : WsState)
    → All IsMessage ms
    → s.frag_buf ≡ []
    → s.frag_opcode ≡ 0
    → length s.pending + length ms ≤ max_pending_frames
    → s.read_buf ≡ frames ms
    → length (frames ms) < rounds
    → try_parse_rounds rounds s ≡ record s { pending = s.pending ++ ms; read_buf = [] }
unfolding try_parse_rounds frames
try_parse_rounds-frames zero ms s hm f o room e h = absurd (omega arith)
try_parse_rounds-frames (suc rounds) [] s hm f o room e h =
    let stopped : round s.read_buf s ≡ stop s = unfold round in ap (λ b. round b s) e in
    rw (stopped, append-nil s.pending) (ap (λ b. record s { read_buf = b }) e)
try_parse_rounds-frames (suc rounds) (m ∷ ms) s ((lo, hi, small), hm) f o room e h =
    let next : WsState = deliver m.opcode m.content (record s { read_buf = frames ms }) in
    let here =
      round-build_frame m.opcode m.content (frames ms) s lo hi small (f, o, omega arith) e in
    let later =
      try_parse_rounds-frames rounds ms next hm f o
        (omega (arith, length-append s.pending (m ∷ []))) refl
        (omega (arith, build_frame-nonempty m.content m.opcode (frames ms))) in
    rw here (
      later
      ∙ ap (λ p. record s { read_buf = []; pending = p }) (append_assoc s.pending (m ∷ []) ms))

-- Text and binary messages of at most 16 MB, each in a frame of its own, are delivered in order when
-- their frames come at once, where no message is open and not more than 256 wait afterwards.
pub feed-frames :
    (ms : List WsMessage) (s : WsState)
    → All IsMessage ms
    → s.frag_buf ≡ []
    → s.frag_opcode ≡ 0
    → s.read_buf ≡ []
    → length s.pending + length ms ≤ max_pending_frames
    → feed (frames ms) s ≡ record s { pending = s.pending ++ ms; read_buf = [] }
unfolding feed try_parse
feed-frames ms s hm f o e room =
    let buf : s.read_buf ++ frames ms ≡ frames ms = ap (λ b. b ++ frames ms) e in
    try_parse_rounds-frames (suc (length (s.read_buf ++ frames ms))) ms
      (record s { read_buf = s.read_buf ++ frames ms }) hm f o room buf (rw buf (omega arith))
