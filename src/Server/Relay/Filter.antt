-- ===== src/Server/Relay/Filter.antt =====
-- The unranked direction of `forwarderLoop` of server/relay.cpp: it cuts the stream into frames, and
-- hands on the stretches between those that only a server may send. A send is a list of bytes;
-- whether it gets through is a function of the sends before it, since sockets are outside.
pub mod Relayed
pub mod Scanning
pub mod Batches
pub mod Whole
pub mod Transparent
use tetris_multiplayer_rl.Net.Framing.{is_server_only_type, k_max_payload_bytes, le_read_u16}
use tetris_multiplayer_rl.Common.{
  ltb, leb, if◌then◌else◌, ◌>>=◌, length, get_elem?, take, drop, ℕ, zero, suc, ◌+◌, ◌-◌, Bool, true,
  false, ◌&&◌, Option, none, some, List, [], ◌∷◌, ◌++◌,
}

-- The bytes from `start` up to `end`.
abbrev pub slice : ℕ → ℕ → List ℕ → List ℕ
slice start end buf = take (end - start) (drop start buf)

-- The variables of the scan of one batch, and the sends so far.
pub record Scan : Type 0 where
  pub pos : ℕ
  pub sent : ℕ
  pub drop_rest : Bool
  pub send_failed : Bool
  pub out : List (List ℕ)

-- What a batch leaves: the bytes that wait for the rest of their frame, the sends, and whether the
-- loop goes on.
pub record Batch : Type 0 where
  pub stream_buf : List ℕ
  pub out : List (List ℕ)
  pub send_failed : Bool

module _ (sends : List (List ℕ) → List ℕ → Bool) where
  -- `push` of a stretch, if there is one.
  unfoldable pub flush : List ℕ → Scan → Scan
  flush buf s =
      let bytes = slice s.sent s.pos buf in
      if ltb s.sent s.pos
      then (if sends s.out bytes
          then record s { out = s.out ++ bytes ∷ [] }
          else record s { out = s.out ++ bytes ∷ []; send_failed = true })
      else s

  -- A frame that only a server may send is passed over.
  unfoldable pub skip_frame : List ℕ → ℕ → Scan → Scan
  unfolding flush
  skip_frame buf total s =
      let flushed = flush buf s in
      if flushed.send_failed
      then flushed
      else record flushed { sent = s.pos + total; pos = s.pos + total }

  -- The loop over the frames. A round takes six bytes or more.
  unfoldable pub scan_loop : ℕ → List ℕ → Scan → Option Scan
  unfolding skip_frame
  scan_loop zero buf s = none
  scan_loop (suc fuel) buf s =
      let next = scan_loop fuel buf in
      if ltb (length buf - s.pos) 2
      then some s
      else le_read_u16 buf s.pos >>= λ len.
          let total = 2 + len + 4 in
          if ltb (k_max_payload_bytes + 1) len
          then some (record s { drop_rest = true })
          else if ltb (length buf - s.pos) total
          then some s
          else get_elem? buf (s.pos + 2) >>= λ type.
              if leb 1 len && is_server_only_type type
              then (let skipped = skip_frame buf total s in
                  if skipped.send_failed then some skipped else next skipped)
              else next (record s { pos = s.pos + total })

  -- After the loop the last stretch is sent, and the buffer keeps what is not cut yet.
  unfoldable pub end_batch : List ℕ → Scan → Batch
  unfolding flush
  end_batch buf s =
      let flushed = if s.send_failed then s else flush buf s in
      record {
        stream_buf =
            if flushed.send_failed then buf else if s.drop_rest then [] else drop s.pos buf;
        out = flushed.out;
        send_failed = flushed.send_failed;
      }

  unfoldable pub unranked_batch : List ℕ → List ℕ → List (List ℕ) → Option Batch
  unfolding scan_loop end_batch
  unranked_batch stream_buf raw out = do
    let buf = stream_buf ++ raw
    s ←
        scan_loop (length buf + 1) buf
          (record { pos = 0; sent = 0; drop_rest = false; send_failed = false; out = out })
    some (end_batch buf s)
