-- ===== src/Server/Relay/Filter/Batches.antt =====
-- A batch of the unranked relay of server/relay.cpp hands on what the stream says.
use tetris_multiplayer_rl.Server.Relay.Filter.Scanning.{
  slice-none, scan_block, slice-grow, flush_lem, skip_frame_lem, scan_pass, total_out, scan_short,
  scan_refuse, scan_hold, end_batch_lem,
}
use tetris_multiplayer_rl.Net.Framing.{is_server_only_type, le_read_u16}
use tetris_multiplayer_rl.Server.Relay.Filter.Relayed.{
  cut_of-block, block, join, cut_of-pass, blocking, pass, passing, holding, cut_of, hold, Cut,
  server_head, Relays, next_cut, refusing, cut_of-refuse, cut_of-hold,
}
use tetris_multiplayer_rl.Net.Framing.Parse.{le_read_u16_lem, read_at}
use tetris_multiplayer_rl.Server.Relay.Filter.{
  slice, scan_loop, flush, Scan, Batch, end_batch, unranked_batch,
}
use tetris_multiplayer_rl.Common.{
  ltb, leb, if◌then◌else◌, Bool-cases, if_false, length, get_elem?, take, drop, All, length-drop,
  All-drop, drop-drop, IsByte, ℕ, zero, suc, ◌+◌, ◌-◌, ◌*◌, ◌≤◌, ◌<◌, ◌≡◌, refl, sym, ap, ◌∙◌, inl,
  inr, Bool, true, false, ◌&&◌, some, List, [], ◌∷◌, ◌++◌, arith,
}
use mathlib.Core.Path.{subst}
use mathlib.Core.List.{append-nil, append_assoc}

module _ (sends : List (List ℕ) → List ℕ → Bool)
    (through : (h : List (List ℕ)) (b : List ℕ) → sends h b ≡ true) where
  -- Where the loop can start, and what it comes to.
  record IsScan (s : Scan) : Type 0 where
    pub ordered : s.sent ≤ s.pos
    pub live : s.send_failed ≡ false
    pub trusted : s.drop_rest ≡ false

  record Scanned (fuel : ℕ) (buf : List ℕ) (s : Scan) : Type 0 where
    pub final : Scan
    pub handed : List ℕ
    pub rest : List ℕ
    pub returns : scan_loop sends fuel buf s ≡ some final
    pub relays : Relays (drop s.pos buf) handed rest
    pub all : total_out buf final ≡ total_out buf s ++ handed
    pub ordered : final.sent ≤ final.pos
    pub live : final.send_failed ≡ false
    pub kept : (if final.drop_rest then [] else drop final.pos buf) ≡ rest

  module _ (fuel : ℕ) (buf : List ℕ) (s : Scan) (v : IsScan s) where
    stop :
        scan_loop sends (suc fuel) buf s ≡ some s
        → next_cut (drop s.pos buf) ≡ hold
        → Scanned (suc fuel) buf s
    stop e h = record {
      final = s;
      handed = [];
      rest = drop s.pos buf;
      returns = e;
      relays = holding (drop s.pos buf) h;
      all = sym (append-nil (total_out buf s));
      ordered = v.ordered;
      live = v.live;
      kept = if_false _ _ v.trusted;
    }

    -- A whole frame at the front.
    module _ (lo hi t : ℕ) (x : List ℕ) (at : drop s.pos buf ≡ lo ∷ hi ∷ t ∷ x)
        (bytes : All IsByte (lo ∷ hi ∷ t ∷ x)) (fits : ltb 4097 (lo + hi * 256) ≡ false)
        (there : ltb (suc (length x)) (lo + hi * 256 + 4) ≡ false) where
      total : length buf - s.pos ≡ suc (suc (suc (length x)))
      total = omega (arith, length-drop s.pos buf, ap length at)

      type_at : get_elem? buf (s.pos + 2) ≡ some t
      type_at = read_at buf s.pos 2 (lo ∷ hi ∷ t ∷ x) at

      len_at : le_read_u16 buf s.pos ≡ some (lo + hi * 256)
      len_at = le_read_u16_lem buf s.pos lo hi (t ∷ x) at bytes.0 bytes.1.0

      size : 2 + (lo + hi * 256) + 4 ≡ lo + hi * 256 + 6
      size = omega arith

      long : ltb (length buf - s.pos) 2 ≡ false
      long = ground (arith, total)

      complete : ltb (length buf - s.pos) (2 + (lo + hi * 256) + 4) ≡ false
      complete = ground (arith, total, there)

      front : (c : Cut) → cut_of (lo + hi * 256) (t ∷ x) ≡ c → next_cut (drop s.pos buf) ≡ c
      unfolding next_cut
      front c e = ap next_cut at ∙ e

      pass_round :
          (leb 1 (lo + hi * 256) && is_server_only_type t) ≡ false
          → Scanned fuel buf (record s { pos = s.pos + (lo + hi * 256 + 6) })
          → Scanned (suc fuel) buf s
      unfolding total_out server_head
      pass_round p f =
          let need = lo + hi * 256 + 6 in
          let step =
            scan_pass sends through fuel buf s long (lo + hi * 256) len_at fits complete t type_at
              p in
          let grown = slice-grow s.sent s.pos need buf v.ordered in
          record {
            final = f.final;
            handed = take need (drop s.pos buf) ++ f.handed;
            rest = f.rest;
            returns =
                step
                ∙ ap (λ n. scan_loop sends fuel buf (record s { pos = s.pos + n })) size
                ∙ f.returns;
            relays =
                passing (drop s.pos buf) need f.handed f.rest
                  (front (pass need) (cut_of-pass (lo + hi * 256) (t ∷ x) fits there p))
                  (subst (λ y. Relays y f.handed f.rest) (sym (drop-drop s.pos need buf)) f.relays);
            all =
                f.all
                ∙ ap (λ y. (join s.out ++ y) ++ f.handed) grown
                ∙ ap (λ y. y ++ f.handed)
                    (sym (
                      append_assoc (join s.out) (slice s.sent s.pos buf)
                        (take need (drop s.pos buf))))
                ∙ append_assoc (join s.out ++ slice s.sent s.pos buf) (take need (drop s.pos buf))
                    f.handed;
            ordered = f.ordered;
            live = f.live;
            kept = f.kept;
          }

      -- The state after a blocked frame.
      skipped : Scan
      skipped = record (flush sends buf s) {
        sent = s.pos + (lo + hi * 256 + 6);
        pos = s.pos + (lo + hi * 256 + 6);
      }

      block_round :
          (leb 1 (lo + hi * 256) && is_server_only_type t) ≡ true
          → Scanned fuel buf skipped
          → Scanned (suc fuel) buf s
      unfolding total_out server_head skipped
      block_round p f =
          let need = lo + hi * 256 + 6 in
          let skip =
            skip_frame_lem sends through buf (2 + (lo + hi * 256) + 4) s v.ordered v.live in
          let flushed = flush_lem sends through buf s v.ordered in
          let live = ap (λ y. y.send_failed) skip ∙ flushed.1 ∙ v.live in
          let step =
            scan_block sends through fuel buf s long (lo + hi * 256) len_at fits complete t type_at
              p live in
          let nothing = slice-none (s.pos + need) buf in
          record {
            final = f.final;
            handed = f.handed;
            rest = f.rest;
            returns =
                step
                ∙ ap (scan_loop sends fuel buf) skip
                ∙ ap
                    (λ n.
                      scan_loop sends fuel buf
                        (record (flush sends buf s) { sent = s.pos + n; pos = s.pos + n }))
                    size
                ∙ f.returns;
            relays =
                blocking (drop s.pos buf) need f.handed f.rest
                  (front (block need) (cut_of-block (lo + hi * 256) (t ∷ x) fits there p))
                  (subst (λ y. Relays y f.handed f.rest) (sym (drop-drop s.pos need buf)) f.relays);
            all =
                f.all
                ∙ ap (λ y. (join (flush sends buf s).out ++ y) ++ f.handed) nothing
                ∙ ap (λ y. y ++ f.handed) (append-nil (join (flush sends buf s).out) ∙ flushed.0);
            ordered = f.ordered;
            live = f.live;
            kept = f.kept;
          }

    whole :
        (lo hi : ℕ) (x : List ℕ) (at : drop s.pos buf ≡ lo ∷ hi ∷ x)
        → All IsByte (lo ∷ hi ∷ x)
        → ltb 4097 (lo + hi * 256) ≡ false
        → ltb (length x) (lo + hi * 256 + 4) ≡ false
        → ((s' : Scan)
            → IsScan s'
            → s.pos + 6 ≤ s'.pos
            → 6 ≤ suc (suc (length x))
            → Scanned fuel buf s')
        → Scanned (suc fuel) buf s
    unfolding skipped
    whole lo hi [] at bytes fits there next = absurd (ground (arith, there))
    whole lo hi (t ∷ x) at bytes fits there next =
        elim (Bool-cases (leb 1 (lo + hi * 256) && is_server_only_type t)) [
          | inr free ↦ pass_round lo hi t x at bytes fits there free (
              next (record s { pos = s.pos + (lo + hi * 256 + 6) })
                (record { ordered = omega (arith, v.ordered); live = v.live; trusted = v.trusted })
                (omega arith) (ground (arith, there)))
          | inl forged ↦
              let flushed = flush_lem sends through buf s v.ordered in
              block_round lo hi t x at bytes fits there forged (
                next (skipped lo hi t x at bytes fits there)
                  (record {
                    ordered = omega arith;
                    live = flushed.1 ∙ v.live;
                    trusted = flushed.2 ∙ v.trusted;
                  })
                  (omega arith) (ground (arith, there)))
        ]

    -- Every round, by what the stream begins with.
    round :
        (x : List ℕ)
        → drop s.pos buf ≡ x
        → All IsByte x
        → ((s' : Scan) → IsScan s' → s.pos + 6 ≤ s'.pos → 6 ≤ length x → Scanned fuel buf s')
        → Scanned (suc fuel) buf s
    unfolding next_cut total_out
    round [] at bytes next =
        stop
          (scan_short sends through fuel buf s
            (ground (arith, length-drop s.pos buf, ap length at)))
          (ap next_cut at)
    round (b ∷ []) at bytes next =
        stop
          (scan_short sends through fuel buf s
            (ground (arith, length-drop s.pos buf, ap length at)))
          (ap next_cut at)
    round (lo ∷ hi ∷ x) at bytes next =
        let total = length-drop s.pos buf in
        let size = ap length at in
        let long : ltb (length buf - s.pos) 2 ≡ false = ground (arith, total, size) in
        let len_at = le_read_u16_lem buf s.pos lo hi x at bytes.0 bytes.1.0 in
        elim (Bool-cases (ltb 4097 (lo + hi * 256))) [
          | inl over ↦ record {
            final = record s { drop_rest = true };
            handed = [];
            rest = [];
            returns = scan_refuse sends through fuel buf s long (lo + hi * 256) len_at over;
            relays =
                refusing (drop s.pos buf) (ap next_cut at ∙ cut_of-refuse (lo + hi * 256) x over);
            all = sym (append-nil (total_out buf s));
            ordered = v.ordered;
            live = v.live;
            kept = refl;
          }
          | inr fits ↦ elim (Bool-cases (ltb (length x) (lo + hi * 256 + 4))) [
            | inl short ↦
                stop
                  (scan_hold sends through fuel buf s long (lo + hi * 256) len_at fits
                    (ground (arith, total, size, short)))
                  (ap next_cut at ∙ cut_of-hold (lo + hi * 256) x fits short)
            | inr there ↦ whole lo hi x at bytes fits there next
          ]
        ]

  scan_lem :
      (fuel : ℕ) (buf : List ℕ) (s : Scan)
      → IsScan s
      → All IsByte buf
      → length (drop s.pos buf) < fuel
      → Scanned fuel buf s
  scan_lem zero buf s v bytes h = absurd (omega arith)
  scan_lem (suc fuel) buf s v bytes h =
      round fuel buf s v (drop s.pos buf) refl (All-drop IsByte s.pos buf bytes)
        (λ s' v' further six.
          scan_lem fuel buf s' v' bytes
            (omega (arith, h, six, further, length-drop s.pos buf, length-drop s'.pos buf)))

  -- A batch, where every send gets through: the loop ends, the sends are in all the bytes that the
  -- relay hands on of the stream, and the buffer keeps what it keeps of it.
  pub unranked_batch-Relays :
      (stream_buf raw : List ℕ) (out : List (List ℕ))
      → All IsByte (stream_buf ++ raw)
      → (b : Batch) × (handed : List ℕ) × (unranked_batch sends stream_buf raw out ≡ some b)
        × Relays (stream_buf ++ raw) handed b.stream_buf
        × (join b.out ≡ join out ++ handed)
        × (b.send_failed ≡ false)
  unfolding unranked_batch total_out
  unranked_batch-Relays stream_buf raw out bytes =
      let buf = stream_buf ++ raw in
      let begin : Scan = record {
        pos = 0;
        sent = 0;
        drop_rest = false;
        send_failed = false;
        out = out;
      } in
      let f =
        scan_lem (length buf + 1) buf begin
          (record { ordered = omega arith; live = refl; trusted = refl }) bytes (omega arith) in
      let e = end_batch_lem sends through buf f.final f.ordered f.live in
      (
        end_batch sends buf f.final,
        f.handed,
        rw f.returns refl,
        subst (Relays buf f.handed) (sym (ap (λ b. b.stream_buf) e ∙ f.kept)) f.relays,
        ap (λ b. join b.out) e
            ∙ (flush_lem sends through buf f.final f.ordered).0
            ∙ f.all
            ∙ ap (λ x. x ++ f.handed) (append-nil (join out)),
        ap (λ b. b.send_failed) e,
      )
