-- ===== src/Server/Relay/Filter/Scanning.antt =====
-- The scan of server/relay.cpp against what the relay hands on.
use tetris_multiplayer_rl.Net.Framing.{is_server_only_type, le_read_u16}
use tetris_multiplayer_rl.Server.Relay.Filter.Relayed.{join-append, join}
use tetris_multiplayer_rl.Server.Relay.Filter.{flush, Scan, slice, skip_frame, scan_loop, end_batch}
use tetris_multiplayer_rl.Common.{
  ltb, leb, if◌then◌else◌, Bool-cases, if_true, if_false, length, get_elem?, take, drop, drop-drop,
  take-add, ℕ, suc, ◌+◌, ◌-◌, ◌≤◌, ◌≡◌, refl, sym, ap, ◌∙◌, inl, inr, Bool, true, false, ◌&&◌, some,
  List, [], ◌∷◌, ◌++◌, arith,
}
use mathlib.Core.List.{append-nil}

pub slice-grow :
    (start pos need : ℕ) (buf : List ℕ)
    → start ≤ pos
    → slice start (pos + need) buf ≡ slice start pos buf ++ take need (drop pos buf)
slice-grow start pos need buf h =
    let e : pos + need - start ≡ pos - start + need = omega arith in
    let f : start + (pos - start) ≡ pos = omega arith in
    ap (λ t. take t (drop start buf)) e
    ∙ take-add (pos - start) need (drop start buf)
    ∙ ap (λ t. slice start pos buf ++ take need t)
        (drop-drop start (pos - start) buf ∙ ap (λ t. drop t buf) f)

pub slice-none : (pos : ℕ) (buf : List ℕ) → slice pos pos buf ≡ []
slice-none pos buf = let e : pos - pos ≡ 0 = omega arith in ap (λ t. take t (drop pos buf)) e

-- All that is handed on once the last stretch is sent.
unfoldable pub total_out : List ℕ → Scan → List ℕ
total_out buf s = join s.out ++ slice s.sent s.pos buf

-- Where every send gets through.
module _ (sends : List (List ℕ) → List ℕ → Bool)
    (through : (h : List (List ℕ)) (b : List ℕ) → sends h b ≡ true) where
  pub flush_lem :
      (buf : List ℕ) (s : Scan)
      → s.sent ≤ s.pos
      → (join (flush sends buf s).out ≡ total_out buf s)
        × ((flush sends buf s).send_failed ≡ s.send_failed)
        × ((flush sends buf s).drop_rest ≡ s.drop_rest)
        × ((flush sends buf s).pos ≡ s.pos)
  unfolding flush total_out join
  flush_lem buf s h = elim (Bool-cases (ltb s.sent s.pos)) [
    | inl more ↦
        let bytes = slice s.sent s.pos buf in
        let one = join-append s.out (bytes ∷ []) ∙ ap (λ x. join s.out ++ x) (append-nil bytes) in
        rw (more, through s.out bytes) (one, refl, refl, refl)
    | inr none_left ↦
        let e : s.sent ≡ s.pos = ground (arith, none_left, h) in
        let nothing = ap (λ t. slice t s.pos buf) e ∙ slice-none s.pos buf in
        rw none_left (
          sym (append-nil (join s.out)) ∙ ap (λ x. join s.out ++ x) (sym nothing),
          refl,
          refl,
          refl,
        )
  ]

  pub skip_frame_lem :
      (buf : List ℕ) (total : ℕ) (s : Scan)
      → s.sent ≤ s.pos
      → s.send_failed ≡ false
      → (skip_frame sends buf total s
          ≡ record (flush sends buf s) { sent = s.pos + total; pos = s.pos + total })
  unfolding skip_frame
  skip_frame_lem buf total s h live = if_false _ _ ((flush_lem buf s h).1 ∙ live)

  pub end_batch_lem :
      (buf : List ℕ) (s : Scan)
      → s.sent ≤ s.pos
      → s.send_failed ≡ false
      → end_batch sends buf s ≡ record {
        stream_buf = if s.drop_rest then [] else drop s.pos buf;
        out = (flush sends buf s).out;
        send_failed = false;
      }
  unfolding end_batch
  end_batch_lem buf s h live =
      let flushed : (if s.send_failed then s else flush sends buf s) ≡ flush sends buf s =
        if_false _ _ live in
      let rest = if s.drop_rest then [] else drop s.pos buf in
      (λ i. record {
        stream_buf = if (flushed i).send_failed then buf else rest;
        out = (flushed i).out;
        send_failed = (flushed i).send_failed;
      })
      ∙ (λ i. record {
        stream_buf = if ((flush_lem buf s h).1 ∙ live) i then buf else rest;
        out = (flush sends buf s).out;
        send_failed = ((flush_lem buf s h).1 ∙ live) i;
      })

  -- One round on each branch of the loop.
  module _ (fuel : ℕ) (buf : List ℕ) (s : Scan) where
    pub scan_short : ltb (length buf - s.pos) 2 ≡ true → scan_loop sends (suc fuel) buf s ≡ some s
    unfolding scan_loop
    scan_short h = if_true _ _ h

    module _ (h : ltb (length buf - s.pos) 2 ≡ false) (len : ℕ)
        (r : le_read_u16 buf s.pos ≡ some len) where
      pub scan_refuse :
          ltb 4097 len ≡ true
          → scan_loop sends (suc fuel) buf s ≡ some (record s { drop_rest = true })
      unfolding scan_loop
      scan_refuse j = if_false _ _ h ∙ rw (r, j) refl

      pub scan_hold :
          ltb 4097 len ≡ false
          → ltb (length buf - s.pos) (2 + len + 4) ≡ true
          → scan_loop sends (suc fuel) buf s ≡ some s
      unfolding scan_loop
      scan_hold j k = if_false _ _ h ∙ rw (r, j, k) refl

      module _ (j : ltb 4097 len ≡ false) (k : ltb (length buf - s.pos) (2 + len + 4) ≡ false)
          (type : ℕ) (t : get_elem? buf (s.pos + 2) ≡ some type) where
        pub scan_pass :
            (leb 1 len && is_server_only_type type) ≡ false
            → scan_loop sends (suc fuel) buf s
              ≡ scan_loop sends fuel buf (record s { pos = s.pos + (2 + len + 4) })
        unfolding scan_loop
        scan_pass b = if_false _ _ h ∙ rw (r, j, k, t) (if_false _ _ b)

        pub scan_block :
            (leb 1 len && is_server_only_type type) ≡ true
            → (skip_frame sends buf (2 + len + 4) s).send_failed ≡ false
            → scan_loop sends (suc fuel) buf s
              ≡ scan_loop sends fuel buf (skip_frame sends buf (2 + len + 4) s)
        unfolding scan_loop
        scan_block b f = if_false _ _ h ∙ rw (r, j, k, t) (if_true _ _ b ∙ if_false _ _ f)
