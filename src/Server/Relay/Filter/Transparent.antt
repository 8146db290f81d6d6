-- ===== src/Server/Relay/Filter/Transparent.antt =====
-- The unranked relay of server/relay.cpp and the parser of net/framing.cpp: the peer reads the frames
-- that were sent, but for those that only a server may send.
use tetris_multiplayer_rl.Server.Relay.Filter.Batches.{unranked_batch-Relays}
use tetris_multiplayer_rl.Server.Relay.Filter.{unranked_batch, Batch}
use tetris_multiplayer_rl.Net.Framing.Chunks.{parse_frames_of, next_frame-append}
use tetris_multiplayer_rl.Net.Framing.Stream.{
  broken, round_of-wait, round_of-bad, waiting, bad, consumed, wait, took, next_frame, Parses,
}
use tetris_multiplayer_rl.Server.Relay.Filter.Whole.{
  cut, allowed, allowed-append, Whole-view, whole_len, whole_frames, next_frame-Whole,
  next_frame-alone, length-alone, allowed-body,
}
use tetris_multiplayer_rl.Net.Framing.{Frame, Parsed, parse_frames}
use tetris_multiplayer_rl.Server.Relay.Filter.Relayed.{
  join, blocking, cut_of-pass, passing, cut_of-block, server_head, cut_of-hold, refusing,
  cut_of-refuse, holding, Relays, refuse, hold, cut_of, next_cut,
}
use tetris_multiplayer_rl.Common.{
  ltb, leb, Bool-cases, if_true, if_false, length, take, drop, All, drop-append_length, All-append,
  All-drop, All-take, IsByte, ℕ, ◌+◌, ◌*◌, ◌≡◌, refl, sym, ap, ◌∙◌, inl, inr, Bool, true, false,
  ◌&&◌, some, List, [], ◌∷◌, ◌++◌, arith,
}
use mathlib.Core.Path.{subst}
use mathlib.Core.List.{append-nil, append_assoc}

-- What the relay reads of a stream, and what its peer reads.
record Read (s handed rest : List ℕ) : Type 0 where
  pub frames : List Frame
  pub ok : Bool
  pub source :
      (out : List Frame) → Parses s out (record { ok = ok; stream_buf = rest; out = out ++ frames })
  pub target :
      (out : List Frame)
      → Parses handed out (record { ok = true; stream_buf = []; out = out ++ allowed frames })

next_frame-hold : (s : List ℕ) → next_cut s ≡ hold → next_frame s ≡ wait
unfolding next_cut cut_of next_frame
next_frame-hold [] e = refl
next_frame-hold (b ∷ []) e = refl
next_frame-hold (lo ∷ hi ∷ x) e = elim (Bool-cases (ltb 4097 (lo + hi * 256))) [
  | inl over ↦ let c = sym (cut_of-refuse (lo + hi * 256) x over) ∙ e in absurd (ground (arith, c))
  | inr fits ↦ elim (Bool-cases (ltb (length x) (lo + hi * 256 + 4))) [
    | inl short ↦ round_of-wait (lo + hi * 256) x fits short
    | inr there ↦ elim (Bool-cases (leb 1 (lo + hi * 256) && server_head x)) [
      | inl h ↦
          let c = sym (cut_of-block (lo + hi * 256) x fits there h) ∙ e in
          absurd (ground (arith, c))
      | inr h ↦
          let c = sym (cut_of-pass (lo + hi * 256) x fits there h) ∙ e in absurd (ground (arith, c))
    ]
  ]
]

next_frame-refuse : (s : List ℕ) → next_cut s ≡ refuse → next_frame s ≡ bad
unfolding next_cut next_frame
next_frame-refuse [] e = absurd (ground (arith, e))
next_frame-refuse (b ∷ []) e = absurd (ground (arith, e))
next_frame-refuse (lo ∷ hi ∷ x) e = elim (Bool-cases (ltb 4097 (lo + hi * 256))) [
  | inl over ↦ round_of-bad (lo + hi * 256) x over
  | inr fits ↦ elim (Bool-cases (ltb (length x) (lo + hi * 256 + 4))) [
    | inl short ↦
        let c = sym (cut_of-hold (lo + hi * 256) x fits short) ∙ e in absurd (ground (arith, c))
    | inr there ↦ elim (Bool-cases (leb 1 (lo + hi * 256) && server_head x)) [
      | inl h ↦
          let c = sym (cut_of-block (lo + hi * 256) x fits there h) ∙ e in
          absurd (ground (arith, c))
      | inr h ↦
          let c = sym (cut_of-pass (lo + hi * 256) x fits there h) ∙ e in absurd (ground (arith, c))
    ]
  ]
]

-- A round of the parser in front of what follows.
read_on :
    (s : List ℕ) (need : ℕ) (frames more : List Frame) (ok : Bool) (rest : List ℕ)
    (out : List Frame)
    → next_frame s ≡ took need frames
    → Parses
        (drop need s)
        (out ++ frames)
        (record { ok = ok; stream_buf = rest; out = (out ++ frames) ++ more })
    → Parses s out (record { ok = ok; stream_buf = rest; out = out ++ (frames ++ more) })
read_on s need frames more ok rest out e p = consumed s out need frames _ e (
    subst
      (λ x. Parses (drop need s) (out ++ frames) (record { ok = ok; stream_buf = rest; out = x }))
      (append_assoc out frames more) p)

end_of :
    (s : List ℕ) (ok : Bool) (rest : List ℕ) (out : List Frame)
    → Parses s out (record { ok = ok; stream_buf = rest; out = out })
    → Parses s out (record { ok = ok; stream_buf = rest; out = out ++ [] })
end_of s ok rest out p =
    subst (λ x. Parses s out (record { ok = ok; stream_buf = rest; out = x }))
      (sym (append-nil out)) p

Relays-Read : (s handed rest : List ℕ) → Relays s handed rest → Read s handed rest
unfolding allowed next_frame cut whole_frames
Relays-Read s handed rest (holding _ e) = record {
  frames = [];
  ok = true;
  source = λ out. end_of s true s out (waiting s out (next_frame-hold s e));
  target = λ out. end_of [] true [] out (waiting [] out refl);
}
Relays-Read s handed rest (refusing _ e) = record {
  frames = [];
  ok = false;
  source = λ out. end_of s false [] out (broken s out (next_frame-refuse s e));
  target = λ out. end_of [] true [] out (waiting [] out refl);
}
Relays-Read s handed rest (passing _ need onward _ e o) =
    let r = Relays-Read (drop need s) onward rest o in
    let w = Whole-view need false s e in
    let f = whole_frames s need false w in
    let free : allowed f ≡ f = allowed-body (whole_len w) w.x ∙ if_false _ _ w.head in
    let size = length-alone s need false w in
    let behind : drop need (take need s ++ onward) ≡ onward =
      ap (λ n. drop n (take need s ++ onward)) (sym size)
      ∙ drop-append_length (take need s) onward in
    let read =
      next_frame-append (take need s) onward (took need f) (next_frame-alone s need false w)
        (λ c. ground (arith, c)) in
    record {
      frames = f ++ r.frames;
      ok = r.ok;
      source = λ out.
          read_on s need f r.frames r.ok rest out (next_frame-Whole s need false w)
            (r.source (out ++ f));
      target = λ out.
          subst
            (λ x.
              Parses (take need s ++ onward) out
                (record { ok = true; stream_buf = []; out = out ++ x }))
            (ap (λ x. x ++ allowed r.frames) (sym free) ∙ sym (allowed-append f r.frames))
            (read_on (take need s ++ onward) need f (allowed r.frames) true [] out read (
              subst
                (λ x.
                  Parses x (out ++ f)
                    (record { ok = true; stream_buf = []; out = (out ++ f) ++ allowed r.frames }))
                (sym behind) (r.target (out ++ f))));
    }
Relays-Read s handed rest (blocking _ need onward _ e o) =
    let r = Relays-Read (drop need s) handed rest o in
    let w = Whole-view need true s e in
    let f = whole_frames s need true w in
    let forged : allowed f ≡ [] = allowed-body (whole_len w) w.x ∙ if_true _ _ w.head in
    record {
      frames = f ++ r.frames;
      ok = r.ok;
      source = λ out.
          read_on s need f r.frames r.ok rest out (next_frame-Whole s need true w)
            (r.source (out ++ f));
      target = λ out.
          subst (λ x. Parses handed out (record { ok = true; stream_buf = []; out = out ++ x }))
            (ap (λ x. x ++ allowed r.frames) (sym forged) ∙ sym (allowed-append f r.frames))
            (r.target out);
    }

Relays-bytes : (s handed rest : List ℕ) → Relays s handed rest → All IsByte s → All IsByte handed
Relays-bytes s handed rest (holding _ e) bytes = tt
Relays-bytes s handed rest (refusing _ e) bytes = tt
Relays-bytes s handed rest (passing _ need onward _ e o) bytes =
    All-append IsByte (take need s) onward (All-take IsByte need s bytes)
      (Relays-bytes (drop need s) onward rest o (All-drop IsByte need s bytes))
Relays-bytes s handed rest (blocking _ need onward _ e o) bytes =
    Relays-bytes (drop need s) handed rest o (All-drop IsByte need s bytes)

-- Where every send gets through, a batch of bytes ends, and the peer reads what it was sent to the
-- end: the frames that the relay's stream holds, but for those that only a server may send. The
-- relay keeps the bytes that the parser would keep of that stream.
pub unranked_batch-parse_frames :
    (sends : List (List ℕ) → List ℕ → Bool) (stream_buf raw : List ℕ)
    → ((h : List (List ℕ)) (b : List ℕ) → sends h b ≡ true)
    → All IsByte (stream_buf ++ raw)
    → (b : Batch) × (r : Parsed) × (unranked_batch sends stream_buf raw [] ≡ some b)
      × (parse_frames (stream_buf ++ raw) [] ≡ some r)
      × (parse_frames (join b.out) []
          ≡ some (record { ok = true; stream_buf = []; out = allowed r.out }))
      × (b.stream_buf ≡ r.stream_buf)
unfolding join
unranked_batch-parse_frames sends stream_buf raw through bytes =
    let (b, handed, e, relays, sent, _) =
      unranked_batch-Relays sends through stream_buf raw [] bytes in
    let r = Relays-Read (stream_buf ++ raw) handed b.stream_buf relays in
    let onward = Relays-bytes (stream_buf ++ raw) handed b.stream_buf relays bytes in
    (
      b,
      record { ok = r.ok; stream_buf = b.stream_buf; out = r.frames },
      e,
      parse_frames_of (stream_buf ++ raw) [] _ bytes (r.source []),
      ap (λ x. parse_frames x []) sent ∙ parse_frames_of handed [] _ onward (r.target []),
      refl,
    )
