-- ===== src/Net/Framing.antt =====
-- net/framing.h and net/framing.cpp: the frames of the byte stream. Bytes are numbers, a buffer is a
-- list of them, and a read behind its end is `none`.
pub mod Reads
pub mod Words
pub mod Stream
pub mod Parse
pub mod Loop
pub mod Chunks
pub mod Limits
pub mod Skips
pub mod RoundTrip
pub mod Corruption
mod Tests
use tetris_multiplayer_rl.Common.{
  ltb, ◌==◌, if◌then◌else◌, ◌>>=◌, length, get_elem?, take, drop, u8, u16, u32, u64, le_bytes,
  bit_or, ℕ, zero, suc, ◌+◌, ◌-◌, ◌*◌, ◌^◌, bit_xor, Bool, true, false, ◌||◌, Option, none, some,
  List, [], ◌∷◌, ◌++◌,
}

abbrev pub k_max_payload_bytes : ℕ
k_max_payload_bytes = 4096

abbrev pub k_frame_len_bytes : ℕ
k_frame_len_bytes = 2

abbrev pub k_frame_type_bytes : ℕ
k_frame_type_bytes = 1

abbrev pub k_frame_checksum_bytes : ℕ
k_frame_checksum_bytes = 4

-- `MsgType` has a value for every byte, since the parser casts the byte to it.
abbrev pub MsgType : Type 0
MsgType = ℕ

abbrev pub hello : MsgType
hello = 1

abbrev pub hello_ack : MsgType
hello_ack = 2

abbrev pub seed_msg : MsgType
seed_msg = 3

abbrev pub input_msg : MsgType
input_msg = 4

abbrev pub ack : MsgType
ack = 5

abbrev pub ping : MsgType
ping = 6

abbrev pub pong : MsgType
pong = 7

abbrev pub hash_msg : MsgType
hash_msg = 8

abbrev pub game_over_choice : MsgType
game_over_choice = 9

abbrev pub queue_cancel : MsgType
queue_cancel = 11

abbrev pub match_found : MsgType
match_found = 12

abbrev pub room_info : MsgType
room_info = 15

abbrev pub ready_msg : MsgType
ready_msg = 17

abbrev pub match_summary : MsgType
match_summary = 18

abbrev pub match_result : MsgType
match_result = 19

abbrev pub chat : MsgType
chat = 20

abbrev pub server_reject : MsgType
server_reject = 21

unfoldable pub is_server_only_type : ℕ → Bool
is_server_only_type type =
    (type == match_found)
    || (type == room_info)
    || (type == match_result)
    || (type == server_reject)

pub record Frame : Type 0 where
  pub type : MsgType
  pub payload : List ℕ

-- One round of the loop of `fnv1a32`.
unfoldable pub fnv1a32_step : ℕ → ℕ → ℕ
fnv1a32_step h b = u32 (bit_xor h b * 16777619)

unfoldable pub fnv1a32 : List ℕ → ℕ → ℕ
fnv1a32 [] h = h
fnv1a32 (b ∷ bytes) h = fnv1a32 bytes (fnv1a32_step h b)

abbrev pub fnv1a32_seed : ℕ
fnv1a32_seed = 2166136261

-- The `n` writes of the loop, byte by byte.
unfoldable pub le_write : ℕ → List ℕ → ℕ → List ℕ
le_write n v x = v ++ le_bytes n x

unfoldable pub le_write_u16 : List ℕ → ℕ → List ℕ
unfolding le_write
le_write_u16 v x = le_write 2 v x

unfoldable pub le_write_u32 : List ℕ → ℕ → List ℕ
unfolding le_write
le_write_u32 v x = le_write 4 v x

-- The reads at position `p` of a buffer.
unfoldable pub le_read_u16 : List ℕ → ℕ → Option ℕ
le_read_u16 v p = do
  p0 ← get_elem? v p
  p1 ← get_elem? v (p + 1)
  some (u16 (bit_or p0 (p1 * 2 ^ 8)))

unfoldable pub le_read_u32 : List ℕ → ℕ → Option ℕ
le_read_u32 v p = do
  p0 ← get_elem? v p
  p1 ← get_elem? v (p + 1)
  p2 ← get_elem? v (p + 2)
  p3 ← get_elem? v (p + 3)
  some (u32 (bit_or (bit_or (bit_or p0 (p1 * 2 ^ 8)) (p2 * 2 ^ 16)) (p3 * 2 ^ 24)))

unfoldable pub le_write_u64 : List ℕ → ℕ → List ℕ
unfolding le_write
le_write_u64 v x = le_write 8 v x

-- The loop of `le_read_u64`, from the last byte to the first.
unfoldable pub le_read_loop : ℕ → List ℕ → ℕ → ℕ → Option ℕ
le_read_loop zero v p x = some x
le_read_loop (suc i) v p x =
    get_elem? v (p + i) >>= λ b. le_read_loop i v p (bit_or (u64 (x * 2 ^ 8)) b)

unfoldable pub le_read_u64 : List ℕ → ℕ → Option ℕ
unfolding le_read_loop
le_read_u64 v p = le_read_loop 8 v p 0

-- The checksum of a payload: 0 for the empty one.
unfoldable pub checksum : List ℕ → ℕ
checksum [] = 0
checksum (b ∷ payload) = fnv1a32 (b ∷ payload) fnv1a32_seed

-- An empty result is a payload that is too long.
unfoldable pub build_frame : MsgType → List ℕ → List ℕ
build_frame t payload =
    if ltb k_max_payload_bytes (length payload)
    then []
    else le_write_u32
        (le_write_u16 [] (u16 (k_frame_type_bytes + length payload)) ++ (u8 t ∷ []) ++ payload)
        (checksum payload)

-- What `parse_frames` leaves: its result, the buffer and the frames.
pub record Parsed : Type 0 where
  pub ok : Bool
  pub stream_buf : List ℕ
  pub out : List Frame

-- The frame of `len` at `offset`, if its checksum is right.
unfoldable pub read_frame : List ℕ → ℕ → ℕ → List Frame → Option (List Frame)
read_frame buf offset len out = do
  type ← get_elem? buf (offset + k_frame_len_bytes)
  let payload_len = len - k_frame_type_bytes
  let payload = take payload_len (drop (offset + k_frame_len_bytes + k_frame_type_bytes) buf)
  chk ← le_read_u32 buf (offset + k_frame_len_bytes + len)
  some (
      if chk == checksum payload
      then out ++ record { type = type; payload = payload } ∷ []
      else out)

-- The loop of `parse_frames`. A round reads six bytes or more.
unfoldable pub parse_loop : ℕ → List ℕ → ℕ → List Frame → Option Parsed
parse_loop zero buf offset out = none
parse_loop (suc fuel) buf offset out =
    let next = λ (need : ℕ) (frames : List Frame). parse_loop fuel buf (offset + need) frames in
    let done = some (record { ok = true; stream_buf = drop offset buf; out = out }) in
    if ltb (length buf) (offset + k_frame_len_bytes)
    then done
    else le_read_u16 buf offset >>= λ len.
        let need = k_frame_len_bytes + len + k_frame_checksum_bytes in
        if ltb (k_max_payload_bytes + k_frame_type_bytes) len
        then some (record { ok = false; stream_buf = []; out = out })
        else if ltb (length buf) (offset + need)
        then done
        else if ltb len k_frame_type_bytes
        then next need out
        else read_frame buf offset len out >>= λ frames. next need frames

unfoldable pub parse_frames : List ℕ → List Frame → Option Parsed
parse_frames buf out = parse_loop (length buf + 1) buf 0 out
