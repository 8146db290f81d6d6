-- ===== src/Server/Relay/Filter/Whole.antt =====
-- A frame that the relay of server/relay.cpp cuts off a stream, read by the parser of net/framing.cpp
-- where it stands and alone.
use tetris_multiplayer_rl.Net.Framing.Chunks.{body-append, next_frame-need}
use tetris_multiplayer_rl.Net.Framing.Stream.{round_of-took, took, value, next_frame, body}
use tetris_multiplayer_rl.Net.Framing.{is_server_only_type, Frame, checksum}
use tetris_multiplayer_rl.Server.Relay.Filter.Relayed.{
  refuse, hold, cut_of-pass, cut_of-block, cut_of-hold, cut_of-refuse, pass, block, server_head,
  next_cut, Cut,
}
use tetris_multiplayer_rl.Common.{
  ltb, leb, ◌==◌, if◌then◌else◌, Bool-cases, if_true, if_false, length, take, drop, length-take,
  take-drop, ℕ, zero, suc, ◌+◌, ◌*◌, ◌≤◌, ◌≡◌, refl, sym, ap, ◌∙◌, inl, inr, Bool, true, false,
  ◌&&◌, List, [], ◌∷◌, ◌++◌, arith,
}

-- The frames that a client may send.
unfoldable pub allowed : List Frame → List Frame
allowed [] = []
allowed (f ∷ frames) =
    let rest = allowed frames in if is_server_only_type f.type then rest else f ∷ rest

pub allowed-append : (xs ys : List Frame) → allowed (xs ++ ys) ≡ allowed xs ++ allowed ys
unfolding allowed
allowed-append [] ys = refl
allowed-append (f ∷ xs) ys = elim (Bool-cases (is_server_only_type f.type)) [
  | inl forged ↦ rw forged (allowed-append xs ys)
  | inr free ↦ rw free (ap (◌∷◌ f) (allowed-append xs ys))
]

-- A frame that is all there, at the front of a stream.
pub record Whole (s : List ℕ) (need : ℕ) (forged : Bool) : Type 0 where
  pub lo : ℕ
  pub hi : ℕ
  pub x : List ℕ
  pub at : s ≡ lo ∷ hi ∷ x
  pub size : lo + hi * 256 + 6 ≡ need
  pub fits : ltb 4097 (lo + hi * 256) ≡ false
  pub there : ltb (length x) (lo + hi * 256 + 4) ≡ false
  pub head : (leb 1 (lo + hi * 256) && server_head x) ≡ forged

cut_need : Cut → ℕ
cut_need hold = 0
cut_need refuse = 0
cut_need (pass need) = need
cut_need (block need) = need

module _ (need : ℕ) (forged : Bool) where
  unfoldable pub cut : Cut
  cut = if forged then block need else pass need

  pub Whole-view : (s : List ℕ) → next_cut s ≡ cut → Whole s need forged
  unfolding next_cut cut cut_need
  Whole-view [] e = absurd (ground (arith, e))
  Whole-view (b ∷ []) e = absurd (ground (arith, e))
  Whole-view (lo ∷ hi ∷ x) e = elim (Bool-cases (ltb 4097 (lo + hi * 256))) [
    | inl over ↦
        let c = sym (cut_of-refuse (lo + hi * 256) x over) ∙ e in absurd (ground (arith, c))
    | inr fits ↦ elim (Bool-cases (ltb (length x) (lo + hi * 256 + 4))) [
      | inl short ↦
          let c = sym (cut_of-hold (lo + hi * 256) x fits short) ∙ e in absurd (ground (arith, c))
      | inr there ↦ elim (Bool-cases (leb 1 (lo + hi * 256) && server_head x)) [
        | inl h ↦
            let c = sym (cut_of-block (lo + hi * 256) x fits there h) ∙ e in
            let n = ap cut_need c in
            record {
              lo = lo;
              hi = hi;
              x = x;
              at = refl;
              size = ground (arith, n);
              fits = fits;
              there = there;
              head = h ∙ ground (arith, c);
            }
        | inr h ↦
            let c = sym (cut_of-pass (lo + hi * 256) x fits there h) ∙ e in
            let n = ap cut_need c in
            record {
              lo = lo;
              hi = hi;
              x = x;
              at = refl;
              size = ground (arith, n);
              fits = fits;
              there = there;
              head = h ∙ ground (arith, c);
            }
      ]
    ]
  ]

abbrev pub whole_len : {s : List ℕ} {need : ℕ} {forged : Bool} → Whole s need forged → ℕ
whole_len w = w.lo + w.hi * 256

-- Such a frame is read alike where it stands alone.
module _ (s : List ℕ) (need : ℕ) (forged : Bool) (w : Whole s need forged) where
  unfoldable pub whole_frames : List Frame
  whole_frames = body (whole_len w) w.x

  pub next_frame-Whole : next_frame s ≡ took need whole_frames
  unfolding next_frame whole_frames
  next_frame-Whole =
      ap next_frame w.at
      ∙ round_of-took (whole_len w) w.x w.fits w.there
      ∙ ap (λ n. took n (body (whole_len w) w.x)) w.size

  alone : take need s ≡ w.lo ∷ w.hi ∷ take (whole_len w + 4) w.x
  alone =
      let e : need ≡ suc (suc (whole_len w + 4)) = omega (arith, w.size) in
      ap (take need) w.at ∙ ap (λ n. take n (w.lo ∷ w.hi ∷ w.x)) e

  pub next_frame-alone : next_frame (take need s) ≡ took need whole_frames
  unfolding next_frame whole_frames
  next_frame-alone =
      let n = whole_len w in
      let fits : n + 4 ≤ length w.x = ground (arith, w.there) in
      let size = length-take (n + 4) w.x fits in
      let same =
        sym (body-append n (take (n + 4) w.x) (drop (n + 4) w.x) (omega (arith, size)))
        ∙ ap (body n) (take-drop (n + 4) w.x) in
      ap next_frame alone
      ∙ round_of-took n (take (n + 4) w.x) w.fits (ground (arith, size))
      ∙ ap (λ k. took k (body n (take (n + 4) w.x))) w.size
      ∙ ap (took need) same

  pub length-alone : length (take need s) ≡ need
  length-alone =
      length-take need s (omega (arith, next_frame-need s need whole_frames next_frame-Whole))

-- The frames of a round are of the type that stands at its head.
pub allowed-body :
    (len : ℕ) (x : List ℕ)
    → allowed (body len x) ≡ (if leb 1 len && server_head x then [] else body len x)
unfolding allowed body server_head
allowed-body zero x = refl
allowed-body (suc n) [] = ground arith
allowed-body (suc n) (t ∷ x) =
    let low : leb 1 (suc n) ≡ true = ground arith in
    rw low (go (value (take 4 (drop n x)) == checksum (take n x)) (is_server_only_type t) refl)
  where
    go :
        (right forged : Bool)
        → is_server_only_type t ≡ forged
        → allowed (if right then record { type = t; payload = take n x } ∷ [] else []) ≡ (
            if forged
            then []
            else (if right then record { type = t; payload = take n x } ∷ [] else []))
    go true true e = if_true _ _ e
    go true false e = if_false _ _ e
    go false true e = refl
    go false false e = refl
