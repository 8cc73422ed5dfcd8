-- ===== src/WebSocket/State.antt =====
-- `WSState` of include/lohin/websocket.hpp. What it gives to `send_fn`, if that
-- is set, is recorded in `sent`; the waiter that a
-- message wakes is left out. The bits of a byte are taken by division.
use osodio.Prelude.{
  Bytes, ℕ, zero, suc, ◌+◌, ◌-◌, ◌*◌, ◌/◌, ◌%◌, ◌^◌, Bool, true, not, ◌&&◌, ◌||◌, List, [], ◌∷◌,
  ◌++◌, ltb, leb, ◌==◌, if◌then◌else◌, length, take, drop,
}
use osodio.WebSocket.Frame.{build_frame, unmask}

-- A message, with the code of its `Opcode`.
pub record WsMessage : Type 0 where
  pub opcode : ℕ
  pub content : Bytes

pub record WsState : Type 0 where
  pub read_buf : Bytes
  pub pending : List WsMessage
  pub frag_buf : Bytes
  pub frag_opcode : ℕ
  pub closed : Bool
  pub sent : List Bytes
  pub send_fn_set : Bool

abbrev pub max_frame_payload : ℕ
max_frame_payload = 16 * 1024 * 1024

abbrev pub max_message_size : ℕ
max_message_size = 16 * 1024 * 1024

abbrev pub max_pending_frames : ℕ
max_pending_frames = 256

abbrev pub raw_send : Bytes → WsState → WsState
raw_send frame s = record s { sent = if s.send_fn_set then s.sent ++ frame ∷ [] else s.sent }

abbrev pub close : WsState → WsState
close s = record s { closed = true }

-- `pending.push_back({opcode, payload})`
abbrev pub deliver : ℕ → Bytes → WsState → WsState
deliver opcode payload s = record s {
  pending = s.pending ++ record { opcode = opcode; content = payload } ∷ [];
}

abbrev pub fail_close : ℕ → WsState → WsState
fail_close code s = close (raw_send (0x88 ∷ 2 ∷ (code / 256) ∷ (code % 256) ∷ []) s)

-- What a round of the loop does: `break` and `return`, or `continue`.
pub data Round : Type 0 where
  stop : WsState → Round
  again : WsState → Round

-- The length of the payload and of the header without its mask; or more bytes are needed; or the
-- highest bit of a 64-bit length is set.
pub data Length : Type 0 where
  waiting : Length
  malformed : Length
  known : (payload_len hdr : ℕ) → Length

-- `payload_len = (payload_len << 8) | p[2 + i]`
unfoldable pub big_endian : ℕ → Bytes → ℕ
big_endian n [] = n
big_endian n (c ∷ s) = big_endian (n * 256 + c) s

-- `rest` are the bytes behind the first two.
unfoldable pub read_length : ℕ → Bytes → Length
read_length len7 rest =
    if len7 == 126
    then (if ltb (length rest) 2 then waiting else known (big_endian 0 (take 2 rest)) 4)
    else if len7 == 127
    then (if ltb (length rest) 8
        then waiting
        else if leb (2 ^ 63) (big_endian 0 (take 8 rest))
        then malformed
        else known (big_endian 0 (take 8 rest)) 10)
    else known len7 2

-- `Close`: the echo has the peer's code, where there is one.
abbrev pub echo_of : Bytes → Bytes
echo_of (a ∷ b ∷ payload) = 0x88 ∷ 2 ∷ a ∷ b ∷ []
echo_of _ = 0x88 ∷ 0 ∷ []

-- The rules of fragments, for a data frame whose bytes are out of the buffer.
unfoldable pub data_frame : Bool → ℕ → Bytes → WsState → Round
data_frame fin opcode payload s =
    let fragmenting = ltb 0 (length s.frag_buf) || not (s.frag_opcode == 0) in
    if opcode == 0
    then (if not fragmenting
        then stop (fail_close 1002 s)
        else if ltb max_message_size (length s.frag_buf + length payload)
        then stop (fail_close 1009 s)
        else if fin
        then again (record (deliver s.frag_opcode (s.frag_buf ++ payload) s) {
          frag_buf = [];
          frag_opcode = 0;
        })
        else again (record s { frag_buf = s.frag_buf ++ payload }))
    else if fragmenting
    then stop (fail_close 1002 s)
    else if not fin
    then again (record s { frag_opcode = opcode; frag_buf = payload })
    else again (deliver opcode payload s)

unfoldable pub dispatch : Bool → ℕ → Bytes → WsState → Round
dispatch fin opcode payload s =
    if opcode == 0x8
    then stop (deliver 0x8 payload (raw_send (echo_of payload) (close s)))
    else if opcode == 0x9
    then again (raw_send (build_frame payload 0xA true) s)
    else if opcode == 0xA
    then again (deliver 0xA payload s)
    else data_frame fin opcode payload s

-- The payload out of the buffer, without its mask.
abbrev pub payload_of : Bool → ℕ → ℕ → Bytes → Bytes
payload_of masked hdr payload_len buf =
    let payload = take payload_len (drop hdr buf) in
    if masked then unmask (take 4 (drop (hdr - 4) buf)) 0 payload else payload

-- Behind the checks of the length; `hdr` counts the mask.
unfoldable pub take_frame : Bool → ℕ → Bool → ℕ → ℕ → WsState → Round
take_frame fin opcode masked payload_len hdr s =
    if ltb (length s.read_buf) (hdr + payload_len)
    then stop s
    else if leb max_pending_frames (length s.pending)
    then stop (close s)
    else dispatch fin opcode (payload_of masked hdr payload_len s.read_buf)
        (record s { read_buf = drop (hdr + payload_len) s.read_buf })

unfoldable pub check_length : Bool → ℕ → Bool → Length → WsState → Round
check_length fin opcode masked waiting s = stop s
check_length fin opcode masked malformed s = stop (fail_close 1002 s)
check_length fin opcode masked (known payload_len hdr) s =
    if leb 8 opcode && (not fin || ltb 125 payload_len)
    then stop (fail_close 1002 s)
    else if ltb max_frame_payload payload_len
    then stop (close s)
    else take_frame fin opcode masked payload_len (if masked then hdr + 4 else hdr) s

abbrev pub reserved : ℕ → Bool
reserved opcode = not (leb 8 opcode) && ltb 2 opcode || leb 8 opcode && ltb 0xA opcode

-- One round of the loop, on the bytes of `read_buf`.
unfoldable pub round : Bytes → WsState → Round
round (p0 ∷ p1 ∷ rest) s =
    if not (p0 / 16 % 8 == 0)
    then stop (fail_close 1002 s)
    else if reserved (p0 % 16)
    then stop (fail_close 1002 s)
    else check_length (leb 0x80 p0) (p0 % 16) (leb 0x80 p1) (read_length (p1 % 128) rest) s
round _ s = stop s

abbrev pub continue_with : (WsState → WsState) → Round → WsState
continue_with go (stop s) = s
continue_with go (again s) = go s

-- `try_parse`: every round but the last one takes two bytes at least out of the buffer.
unfoldable pub try_parse_rounds : ℕ → WsState → WsState
try_parse_rounds zero s = s
try_parse_rounds (suc rounds) s = continue_with (try_parse_rounds rounds) (round s.read_buf s)

unfoldable pub try_parse : WsState → WsState
try_parse s = try_parse_rounds (suc (length s.read_buf)) s

unfoldable pub feed : Bytes → WsState → WsState
feed bytes' s = try_parse (record s { read_buf = s.read_buf ++ bytes' })

unfoldable pub notify_closed : WsState → WsState
notify_closed s = close s
