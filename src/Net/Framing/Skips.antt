-- ===== src/Net/Framing/Skips.antt =====
-- The front of a stream that net/framing.cpp has read: the bytes behind it, and the frames it was.
use tetris_multiplayer_rl.Net.Framing.Chunks.{next_frame-need, next_frame-append, parse_frames_of}
use tetris_multiplayer_rl.Net.Framing.Loop.{parse_frames-Parses}
use tetris_multiplayer_rl.Net.Framing.{parse_frames, Parsed, Frame}
use tetris_multiplayer_rl.Net.Framing.Stream.{consumed, broken, waiting, took, next_frame, Parses}
use tetris_multiplayer_rl.Common.{
  length, take, drop, All, length-append, All-append, All-append_right, drop-append, take-drop,
  IsByte, ℕ, ◌≤◌, ◌≡◌, refl, sym, ap, ◌∙◌, true, List, [], ◌++◌, arith,
}
use mathlib.Core.Path.{subst}
use mathlib.Core.List.{append-nil, append_assoc}

-- `buf` ends with `rest`, and the bytes before it are the frames `frames` to the parser, whatever
-- comes behind them.
pub record Skips (buf rest : List ℕ) (frames : List Frame) : Type 0 where
  pub front : List ℕ
  pub split : buf ≡ front ++ rest
  pub parsed :
      (t : List ℕ) (out : List Frame) (r : Parsed)
      → Parses (rest ++ t) (out ++ frames) r
      → Parses (buf ++ t) out r

pub Skips-none : (buf : List ℕ) → Skips buf buf []
Skips-none buf = record {
  front = [];
  split = refl;
  parsed = λ t out r p. subst (λ x. Parses (buf ++ t) x r) (append-nil out) p;
}

pub Skips-trans :
    (buf mid rest : List ℕ) (xs ys : List Frame)
    → Skips buf mid xs
    → Skips mid rest ys
    → Skips buf rest (xs ++ ys)
Skips-trans buf mid rest xs ys f g = record {
  front = f.front ++ g.front;
  split = f.split ∙ ap (λ x. f.front ++ x) g.split ∙ sym (append_assoc f.front g.front rest);
  parsed = λ t out r p. f.parsed t out r (
      g.parsed t (out ++ xs) r
        (subst (λ x. Parses (rest ++ t) x r) (sym (append_assoc out xs ys)) p));
}

-- More bytes come in.
pub Skips-more :
    (buf rest : List ℕ) (frames : List Frame) (more : List ℕ)
    → Skips buf rest frames
    → Skips (buf ++ more) (rest ++ more) frames
Skips-more buf rest frames more f = record {
  front = f.front;
  split = ap (λ x. x ++ more) f.split ∙ append_assoc f.front rest more;
  parsed = λ t out r p.
      subst (λ x. Parses x out r) (sym (append_assoc buf more t))
        (f.parsed (more ++ t) out r
          (subst (λ x. Parses x (out ++ frames) r) (append_assoc rest more t) p));
}

pub Skips-took :
    (buf : List ℕ) (need : ℕ) (frames : List Frame)
    → next_frame buf ≡ took need frames
    → Skips buf (drop need buf) frames
Skips-took buf need frames e = record {
  front = take need buf;
  split = sym (take-drop need buf);
  parsed = λ t out r p.
      consumed (buf ++ t) out need frames r
        (next_frame-append buf t (took need frames) e (λ c. ground (arith, c)))
        (subst (λ x. Parses x (out ++ frames) r)
          (sym (drop-append need buf t (next_frame-need buf need frames e))) p);
}

pub Skips-length :
    (buf rest : List ℕ) (frames : List Frame) → Skips buf rest frames → length rest ≤ length buf
Skips-length buf rest frames f =
    let size = ap length f.split in omega (arith, size, length-append f.front rest)

pub Skips-IsByte :
    (buf rest : List ℕ) (frames : List Frame)
    → Skips buf rest frames
    → All IsByte buf
    → All IsByte rest
Skips-IsByte buf rest frames f h =
    All-append_right IsByte f.front rest (subst (All IsByte) f.split h)

-- What the parser leaves where it refuses nothing.
pub Parses-Skips :
    (s : List ℕ) (out : List Frame) (r : Parsed)
    → Parses s out r
    → r.ok ≡ true
    → (fresh : List Frame) × (r.out ≡ out ++ fresh) × Skips s r.stream_buf fresh
Parses-Skips s out r (waiting _ _ e) h = ([], sym (append-nil out), Skips-none s)
Parses-Skips s out r (broken _ _ e) h = absurd (ground (arith, h))
Parses-Skips s out r (consumed _ _ need frames _ e p) h =
    let (fresh, same, g) = Parses-Skips (drop need s) (out ++ frames) r p h in
    (
      frames ++ fresh,
      same ∙ append_assoc out frames fresh,
      Skips-trans s (drop need s) r.stream_buf frames fresh (Skips-took s need frames e) g,
    )

-- The parser goes on behind the front.
pub parse_frames-Skips :
    (buf rest : List ℕ) (frames : List Frame)
    → Skips buf rest frames
    → (t : List ℕ) → All IsByte buf
    → All IsByte t
    → parse_frames (buf ++ t) [] ≡ parse_frames (rest ++ t) frames
parse_frames-Skips buf rest frames g t bytes more =
    let left = All-append IsByte rest t (Skips-IsByte buf rest frames g bytes) more in
    let (r, e, p) = parse_frames-Parses (rest ++ t) frames left in
    parse_frames_of (buf ++ t) [] r (All-append IsByte buf t bytes more) (g.parsed t [] r p) ∙ sym e
