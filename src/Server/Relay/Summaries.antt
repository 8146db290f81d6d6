-- ===== src/Server/Relay/Summaries.antt =====
-- The summaries and the results between net/session.cpp and server/relay.cpp: what a client sends is
-- what the relay keeps, and what the relay answers is what the client reads.
use mathlib.Core.Path.{subst}
use tetris_multiplayer_rl.Common.Assoc.{==_refl}
use tetris_multiplayer_rl.Common.Returns.{if_both}
use tetris_multiplayer_rl.Server.Relay.Ranked.{
  step, store_summary, intercept, end_ranked_batch, ranked_loop, Ranked, Match, from_a,
}
use tetris_multiplayer_rl.Net.Framing.Reads.{le_read_u32-written}
use tetris_multiplayer_rl.Net.Framing.{
  le_write, le_write_u32, match_summary, le_read_u16, checksum, build_frame,
}
use tetris_multiplayer_rl.Net.Session.{summary_payload, Session, push_send, send_match_summary}
use tetris_multiplayer_rl.Net.Framing.RoundTrip.{
  le_bytes-IsByte, checksum-lt, frame_bytes, IsFrame, build_frame_lem,
}
use tetris_multiplayer_rl.Server.Relay.Result.{
  parse_summary, Summary, Channel, Post, Saved, Action, publish, finalize_ranked,
}
use tetris_multiplayer_rl.Common.{
  leb, ◌==◌, if◌then◌else◌, ◌>>=◌, if_false, has_value, length, take, drop, All, All-append, IsByte,
  le_bytes, ℕ, suc, ◌+◌, ◌^◌, ◌<◌, ◌≡◌, refl, sym, ap, ◌∙◌, Bool, true, false, not, ◌&&◌, Option,
  none, some, List, [], ◌∷◌, ◌++◌, arith,
}

-- The words of a summary fit their four bytes.
pub record IsSummary (s : Summary) : Type 0 where
  pub won : s.won < 2
  pub my_score : s.my_score < 2 ^ 32
  pub my_lines : s.my_lines < 2 ^ 32
  pub opp_score : s.opp_score < 2 ^ 32
  pub opp_lines : s.opp_lines < 2 ^ 32
  pub duration_s : s.duration_s < 2 ^ 32

-- What `SendMatchSummary` writes for a summary.
abbrev pub payload_of : Summary → List ℕ
payload_of s = summary_payload s.won s.my_score s.my_lines s.opp_score s.opp_lines s.duration_s

-- Words of four bytes, one behind the other.
abbrev pub le_words : List ℕ → List ℕ
le_words [] = []
le_words (x ∷ xs) = le_bytes 4 x ++ le_words xs

pub le_words-IsByte : (xs : List ℕ) → All IsByte (le_words xs)
le_words-IsByte [] = tt
le_words-IsByte (x ∷ xs) =
    All-append IsByte (le_bytes 4 x) (le_words xs) (le_bytes-IsByte 4 x) (le_words-IsByte xs)

module _ (s : Summary) (v : IsSummary s) where
  abbrev numbers : List ℕ
  numbers = s.my_score ∷ s.my_lines ∷ s.opp_score ∷ s.opp_lines ∷ s.duration_s ∷ []

  payload_lem : payload_of s ≡ s.won ∷ le_words numbers
  unfolding summary_payload le_write_u32 le_write
  payload_lem =
      let bit : (if s.won == 0 then 0 else 1) ≡ s.won = ground (arith, v.won) in
      ap (λ b. b ∷ le_words numbers) bit

  payload-IsByte : All IsByte (s.won ∷ le_words numbers)
  payload-IsByte = (omega (arith, v.won), le_words-IsByte numbers)

  parse_payload : parse_summary (s.won ∷ le_words numbers) ≡ some s
  unfolding parse_summary
  parse_payload =
      let p = s.won ∷ le_words numbers in
      let byte = λ (xs : List ℕ). le_words-IsByte xs in
      let e1 =
        le_read_u32-written (take 1 p) (le_words (drop 1 numbers)) s.my_score v.my_score
          (byte (drop 1 numbers)) in
      let e2 =
        le_read_u32-written (take 5 p) (le_words (drop 2 numbers)) s.my_lines v.my_lines
          (byte (drop 2 numbers)) in
      let e3 =
        le_read_u32-written (take 9 p) (le_words (drop 3 numbers)) s.opp_score v.opp_score
          (byte (drop 3 numbers)) in
      let e4 =
        le_read_u32-written (take 13 p) (le_words (drop 4 numbers)) s.opp_lines v.opp_lines
          (byte (drop 4 numbers)) in
      let e5 = le_read_u32-written (take 17 p) [] s.duration_s v.duration_s tt in
      rw (e1, e2, e3, e4, e5) refl

  -- The relay keeps the frame of a summary back.
  ranked_loop-summary :
      (sends : List (List ℕ) → List ℕ → Bool) (fuel : ℕ) (ch : Channel) (out : List (List ℕ))
      → ranked_loop sends true (suc (suc fuel)) (record {
        stream_buf =
            frame_bytes match_summary
              (s.won ∷ le_words numbers)
              (checksum (s.won ∷ le_words numbers));
        ch = ch;
        out = out;
        send_failed = false;
      })
        ≡ some (record {
          stream_buf = [];
          ch = store_summary true s ch;
          out = out;
          send_failed = false;
        })
  unfolding ranked_loop intercept le_read_u16
  ranked_loop-summary sends fuel ch out =
      let p = s.won ∷ le_words numbers in
      let buf = frame_bytes match_summary p (checksum p) in
      let chk = le_read_u32-written (take 24 buf) [] (checksum p) (checksum-lt p) tt in
      rw (chk, ==_refl (checksum p), parse_payload) refl

finalize_ranked-summary_a :
    (post_match : Post → Option Saved) (ch : Channel)
    → (end_ranked_batch post_match ch).0.summary_a ≡ ch.summary_a
unfolding end_ranked_batch finalize_ranked
finalize_ranked-summary_a post_match ch =
    if_both P (has_value ch.summary_a && has_value ch.summary_b && not ch.summary_handled) _ _
      (λ both.
        if_both P ch.summary_handled _ _ (λ handled. refl)
          (λ fresh. there ch.summary_a ch.summary_b))
      (λ wait. refl)
  where
    P : Channel × List Action → Type 0
    P d = d.0.summary_a ≡ ch.summary_a

    there :
        (a b : Option Summary)
        → P (elim a [
          | none ↦ (ch, [])
          | some s ↦ elim b [
            | none ↦ (ch, [])
            | some t ↦ (record ch { summary_handled = true }, publish post_match ch s t)
          ]
        ])
    there none b = refl
    there (some s) none = refl
    there (some s) (some t) = refl

payload-IsFrame :
    (s : Summary) → IsSummary s → IsFrame (record { type = match_summary; payload = payload_of s })
payload-IsFrame s v = record {
  typed = omega arith;
  within = omega (arith, ap length (payload_lem s v));
  bytes = subst (All IsByte) (sym (payload_lem s v)) (payload-IsByte s v);
}

-- A summary that a client with room in its queue sends is one frame behind those that it queued, and
-- the relay of a match that holds no bytes and no summary of A yet, given that frame from A, keeps
-- the summary as it was sent and hands no frame on to B.
pub send_match_summary-step :
    (post_match : Post → Option Saved) (sends_to_a sends_to_b : List (List ℕ) → List ℕ → Bool)
    → (s : Summary) (c : Session) (m : Match) → IsSummary s
    → length c.send_q < 4096
    → m.buf_a ≡ []
    → m.ch.summary_a ≡ none
    → (fr : List ℕ) × ((send_match_summary s.won s.my_score s.my_lines s.opp_score s.opp_lines
          s.duration_s c).send_q
        ≡ c.send_q ++ fr ∷ [])
      × (t : Match) × (step post_match sends_to_a sends_to_b (from_a fr) m ≡ some t)
      × (t.ch.summary_a ≡ some s)
      × (t.to_b ≡ m.to_b)
      × (t.buf_a ≡ [])
unfolding send_match_summary push_send step store_summary
send_match_summary-step post_match sends_to_a sends_to_b s c m v room waits new =
    let free : leb 4096 (length c.send_q) ≡ false = ground (arith, room) in
    let fr = build_frame match_summary (payload_of s) in
    let p = s.won ∷ le_words (numbers s v) in
    let bytes : fr ≡ frame_bytes match_summary p (checksum p) =
      ap (build_frame match_summary) (payload_lem s v)
      ∙ build_frame_lem match_summary p (omega arith) (omega arith) in
    let loop = λ (b : List ℕ).
      ranked_loop sends_to_b true (length b + 1)
        (record { stream_buf = b; ch = m.ch; out = m.to_b; send_failed = false }) in
    let ch = store_summary true s m.ch in
    let looped =
      ap loop (ap (λ b. b ++ fr) waits ∙ bytes)
      ∙ ranked_loop-summary s v sends_to_b 27 m.ch m.to_b in
    let kept : ch.summary_a ≡ some s =
      ap (λ (d : Channel). d.summary_a)
        (if_false m.ch (record m.ch { summary_a = some s }) (ap has_value new)) in
    let done = end_ranked_batch post_match ch in
    (
      fr,
      ap (λ (x : Session). x.send_q) (if_false _ _ free),
      record m { ch = done.0; buf_a = []; results = m.results ++ done.1 },
      ap
          (λ o. o >>= λ (st : Ranked).
            let d = end_ranked_batch post_match st.ch in
            some (record m {
              ch = d.0;
              buf_a = st.stream_buf;
              to_b = st.out;
              results = m.results ++ d.1;
            }))
          looped,
      finalize_ranked-summary_a post_match ch ∙ kept,
      refl,
      refl,
    )
