-- ===== src/WebSocket/Tests.antt =====
-- Runs of include/lohin/websocket.hpp.
use osodio.Prelude.{length, ◌%◌, bytes, ◌≡◌, refl, true, false, [], ◌∷◌, ◌++◌, arith}
use osodio.Crypto.Base64.{letter, base64_encode}
use osodio.WebSocket.Sha1.{
  rotl, block_words, more_words, round_function, sha1_rounds, sha1_compress, zero_padding,
  padded_message, sha1_blocks, sha1,
}
use osodio.WebSocket.Sha1.Padding.{length-padded_message}
use osodio.WebSocket.Handshake.{base64, base64_table, ws_accept, base64-base64_encode}
use osodio.WebSocket.Frame.{build_frame, size_field, size_bytes, unmask}
use osodio.WebSocket.State.{
  WsMessage, WsState, feed, try_parse, try_parse_rounds, round, check_length, read_length,
  big_endian, take_frame, dispatch, data_frame, fail_close,
}
use osodio.WebSocket.Bounds.{try_parse_rounds-enough}
use osodio.WebSocket.Delivery.{frames, feed-frames}

abbrev idle : WsState
idle = record {
  read_buf = [];
  pending = [];
  frag_buf = [];
  frag_opcode = 0;
  closed = false;
  sent = [];
  send_fn_set = true;
}

abbrev hello : WsMessage
hello = record { opcode = 1; content = bytes "Hello" }

websocket : Unit {0}
unfolding feed try_parse try_parse_rounds round check_length read_length big_endian take_frame
    dispatch data_frame build_frame size_field size_bytes unmask frames
websocket = tt

-- The masked text of RFC 6455, section 5.7.
masked_hello :
    feed (0x81 ∷ 0x85 ∷ 0x37 ∷ 0xFA ∷ 0x21 ∷ 0x3D ∷ 0x7F ∷ 0x9F ∷ 0x4D ∷ 0x51 ∷ 0x58 ∷ []) idle
    ≡ record idle { pending = hello ∷ [] }
unfolding websocket
masked_hello = refl

fragments :
    feed (0x01 ∷ 0x03 ∷ bytes "Hel" ++ 0x80 ∷ 0x02 ∷ bytes "lo") idle
    ≡ record idle { pending = hello ∷ [] }
unfolding websocket
fragments = refl

stray_continuation : feed (0x80 ∷ 0x00 ∷ []) idle ≡ fail_close 1002 idle
unfolding websocket
stray_continuation = refl

abbrev two_frames : WsState
two_frames = record idle { read_buf = 0x81 ∷ 0x01 ∷ b'a' ∷ 0x81 ∷ 0x00 ∷ [] }

try_parse_rounds-enough_example : try_parse_rounds 9 two_frames ≡ try_parse_rounds 6 two_frames
try_parse_rounds-enough_example =
    try_parse_rounds-enough 6 9 two_frames (omega arith) (omega arith) (omega arith)

feed-frames_example :
    feed (frames (hello ∷ hello ∷ [])) idle
    ≡ record idle { pending = hello ∷ hello ∷ []; read_buf = [] }
feed-frames_example =
    feed-frames (hello ∷ hello ∷ []) idle (ground arith) refl refl refl (omega arith)

-- The key of RFC 6455, section 1.3.
accept_key : ws_accept (bytes "dGhlIHNhbXBsZSBub25jZQ==") ≡ bytes "s3pPLMBiTxaQ9kYGzzhZRbK+xOo="
unfolding ws_accept base64 sha1 sha1_blocks padded_message zero_padding sha1_compress sha1_rounds
    round_function more_words block_words rotl size_bytes letter base64_table
accept_key = refl

length-padded_message_example : length (padded_message (bytes "abc")) % 64 ≡ 0
length-padded_message_example = length-padded_message (bytes "abc")

base64-base64_encode_example : base64 (bytes "ab") ≡ base64_encode (bytes "ab")
base64-base64_encode_example = base64-base64_encode (bytes "ab")
