-- ===== src/Server/Relay/Once.antt =====
-- A whole ranked match of server/relay.cpp: whatever the two sides send, the result is handled at
-- most once, and once the last direction stops, it is.
use tetris_multiplayer_rl.Net.Framing.{match_result}
use tetris_multiplayer_rl.Common.Returns.{if_both, Returns}
use tetris_multiplayer_rl.Server.Relay.Looping.{ranked_loop-Returns, SameMatch, IsForwarded}
use tetris_multiplayer_rl.Server.Relay.History.{
  told, Settles, Settled, to_side_a, to_side_b, to_meta, IsRanked, Answers, finalize_ranked-Settles,
  finalize_forfeit-Settles, finalize_forfeit-handled,
}
use tetris_multiplayer_rl.Common.Int.{pos, eqb_ℤ}
use tetris_multiplayer_rl.Server.Relay.Ranked.{
  stopped, from_b, Ranked, from_a, Step, end_ranked_batch, step, run, Match,
}
use tetris_multiplayer_rl.Server.Relay.Result.{finalize_forfeit, Action, Saved, Channel, Post}
use tetris_multiplayer_rl.Common.{
  ◌==◌, if◌then◌else◌, ◌>>=◌, has_value, length, get_elem?, All, ℕ, suc, ◌+◌, ◌≤◌, ◌≡◌, refl, sym,
  ap, ◌∙◌, ◌⊎◌, inl, inr, Bool, true, false, not, ◌&&◌, Option, none, some, List, [], ◌∷◌, ◌++◌,
  arith,
}
use mathlib.Core.List.{append-nil}
use mathlib.Core.Path.{subst}

-- A match whose result nobody has handled.
abbrev pub IsFresh : Match → Type 0
IsFresh m = (m.ch.summary_handled ≡ false) × (m.results ≡ [])

-- A match in which no side was handed a frame that only a server sends.
abbrev pub IsClean : Match → Type 0
IsClean m = All IsForwarded m.to_a × All IsForwarded m.to_b

-- The frames that a client reads as MATCH_RESULT.
unfoldable pub is_result : List ℕ → Bool
is_result frame = elim (get_elem? frame 2) [ none ↦ false | some type ↦ type == match_result ]

unfoldable pub match_results : List (List ℕ) → ℕ
unfolding is_result
match_results [] = 0
match_results (frame ∷ frames) =
    let n = match_results frames in if is_result frame then suc n else n

-- A side is told one result at most, by the relay or by a frame that the other side sent.
abbrev pub TellsOnce : Match → Type 0
TellsOnce t =
    (match_results t.to_a + to_side_a t.results ≤ 1)
    × (match_results t.to_b + to_side_b t.results ≤ 1)
    × (to_meta t.results ≤ 1)

module _ (post_match : Post → Option Saved) where
  -- A match is fresh, or its result is out.
  abbrev pub IsOnce : Match → Type 0
  IsOnce m = IsFresh m ⊎ ((m.ch.summary_handled ≡ true) × Settled post_match m.results)

  abbrev IsNext : Match → Match → Type 0
  IsNext m t = IsOnce t × (IsRanked m.ch → IsRanked t.ch) × (IsClean m → IsClean t)

  -- A result step behind a change of the summaries.
  after-IsOnce :
      (m t : Match) (ch : Channel) (done : Channel × List Action)
      → IsOnce m
      → SameMatch m.ch ch
      → Settles post_match ch done
      → t.ch ≡ done.0
      → t.results ≡ m.results ++ done.1
      → IsOnce t
  after-IsOnce m t ch done once same (inl nothing) to_ch to_results =
      let handled =
        ap (λ (c : Channel). c.summary_handled) (to_ch ∙ ap (λ d. d.0) nothing) ∙ same.0 in
      let results = to_results ∙ ap (λ d. m.results ++ d.1) nothing ∙ append-nil m.results in
      elim once [
        | inl (fresh, empty) ↦ inl (handled ∙ fresh, results ∙ empty)
        | inr (out, settled) ↦ inr (handled ∙ out, subst (Settled post_match) (sym results) settled)
      ]
  after-IsOnce m t ch done once same (inr (fresh, out, settled, ranked)) to_ch to_results =
      elim once [
        | inl (first, empty) ↦
            let results = to_results ∙ ap (λ r. r ++ done.1) empty in
            inr (
              ap (λ (c : Channel). c.summary_handled) to_ch ∙ out,
              subst (Settled post_match) (sym results) settled,
            )
        | inr (late, before) ↦ let c = sym late ∙ sym same.0 ∙ fresh in absurd (ground (arith, c))
      ]

  -- The players stay.
  after-IsRanked :
      (c ch : Channel) (done : Channel × List Action)
      → SameMatch c ch
      → Settles post_match ch done
      → IsRanked c
      → IsRanked done.0
  after-IsRanked c ch done same settles (meta, a, b) =
      let known : IsRanked ch = (
        same.1 ∙ meta,
        ap (λ p. eqb_ℤ p (pos 0)) same.2 ∙ a,
        ap (λ p. eqb_ℤ p (pos 0)) same.3 ∙ b,
      ) in
      elim settles [
        | inl nothing ↦ subst (λ (d : Channel × List Action). IsRanked d.0) (sym nothing) known
        | inr out ↦ out.3 known
      ]

  end_ranked_batch-Settles : (ch : Channel) → Settles post_match ch (end_ranked_batch post_match ch)
  unfolding end_ranked_batch
  end_ranked_batch-Settles ch =
      if_both (Settles post_match ch)
        (has_value ch.summary_a && has_value ch.summary_b && not ch.summary_handled) _ _
        (λ both. finalize_ranked-Settles post_match ch) (λ wait. inl refl)

  module _ (sends_to_a sends_to_b : List (List ℕ) → List ℕ → Bool) where
    abbrev stop : ℕ → Match → Match
    stop side m =
        let done = finalize_forfeit post_match side m.ch in
        record m { ch = done.0; results = m.results ++ done.1 }

    stopped-IsNext : (side : ℕ) (m : Match) → IsOnce m → IsNext m (stop side m)
    stopped-IsNext side m once =
        let done = finalize_forfeit post_match side m.ch in
        let settles = finalize_forfeit-Settles post_match side m.ch in
        let same : SameMatch m.ch m.ch = (refl, refl, refl, refl) in
        (
          after-IsOnce m (stop side m) m.ch done once same settles refl refl,
          after-IsRanked m.ch m.ch done same settles,
          λ clean. clean,
        )

    run-append :
        (steps more : List Step) (m : Match)
        → run post_match sends_to_a sends_to_b (steps ++ more) m ≡ (
            run post_match sends_to_a sends_to_b steps m
            >>= run post_match sends_to_a sends_to_b more)
    unfolding run
    run-append [] more m = refl
    run-append (s ∷ steps) more m =
        go (step post_match sends_to_a sends_to_b s m) (run-append steps more)
      where
        go :
            (o : Option Match)
            → ((t : Match)
                → run post_match sends_to_a sends_to_b (steps ++ more) t ≡ (
                    run post_match sends_to_a sends_to_b steps t
                    >>= run post_match sends_to_a sends_to_b more))
            → (o >>= run post_match sends_to_a sends_to_b (steps ++ more)) ≡ (
                (o >>= run post_match sends_to_a sends_to_b steps)
                >>= run post_match sends_to_a sends_to_b more)
        go none next = refl
        go (some t) next = next t

    step-IsOnce :
        (s : Step) (m : Match)
        → IsOnce m
        → Returns (IsNext m) (step post_match sends_to_a sends_to_b s m)
    unfolding step
    step-IsOnce (from_a raw) m once =
        let buf = m.buf_a ++ raw in
        let st : Ranked = record {
          stream_buf = buf;
          ch = m.ch;
          out = m.to_b;
          send_failed = false;
        } in
        let (t, e, (same, hands)) =
          ranked_loop-Returns sends_to_b true (length buf + 1) st (omega arith) in
        let done = end_ranked_batch post_match t.ch in
        let after = record m {
          ch = done.0;
          buf_a = t.stream_buf;
          to_b = t.out;
          results = m.results ++ done.1;
        } in
        (
          after,
          rw e refl,
          (
            after-IsOnce m after t.ch done once same (end_ranked_batch-Settles t.ch) refl refl,
            after-IsRanked m.ch t.ch done same (end_ranked_batch-Settles t.ch),
            λ clean. (clean.0, hands clean.1),
          ),
        )
    step-IsOnce (from_b raw) m once =
        let buf = m.buf_b ++ raw in
        let st : Ranked = record {
          stream_buf = buf;
          ch = m.ch;
          out = m.to_a;
          send_failed = false;
        } in
        let (t, e, (same, hands)) =
          ranked_loop-Returns sends_to_a false (length buf + 1) st (omega arith) in
        let done = end_ranked_batch post_match t.ch in
        let after = record m {
          ch = done.0;
          buf_b = t.stream_buf;
          to_a = t.out;
          results = m.results ++ done.1;
        } in
        (
          after,
          rw e refl,
          (
            after-IsOnce m after t.ch done once same (end_ranked_batch-Settles t.ch) refl refl,
            after-IsRanked m.ch t.ch done same (end_ranked_batch-Settles t.ch),
            λ clean. (hands clean.0, clean.1),
          ),
        )
    step-IsOnce (stopped side) m once = (_, refl, stopped-IsNext side m once)

    run-IsNext :
        (steps : List Step) (m : Match)
        → IsOnce m
        → Returns (IsNext m) (run post_match sends_to_a sends_to_b steps m)
    unfolding run
    run-IsNext [] m once = (m, refl, (once, λ r. r, λ c. c))
    run-IsNext (s ∷ steps) m once =
        let (t, e, (next, known, clean)) = step-IsOnce s m once in
        let (u, d, (last, still, so)) = run-IsNext steps t next in
        (
          u,
          ap (λ o. o >>= run post_match sends_to_a sends_to_b steps) e ∙ d,
          (last, λ r. still (known r), λ c. so (clean c)),
        )

    -- A ranked match whose result nobody has handled, once its last direction stops after whatever
    -- batches came in: the result is handled, and where the meta server answers every request, one
    -- side or more is told it.
    pub run-stopped :
        (steps : List Step) (side : ℕ) (m : Match)
        → IsFresh m
        → IsRanked m.ch
        → Answers post_match
        → (t : Match) × (run post_match sends_to_a sends_to_b (steps ++ stopped side ∷ []) m
            ≡ some t)
          × (t.ch.summary_handled ≡ true)
          × (1 ≤ told t.results)
    unfolding run step
    run-stopped steps side m fresh ranked answers =
        let (t, e, (once, known, keeps)) = run-IsNext steps m (inl fresh) in
        let u = stop side t in
        let handled = finalize_forfeit-handled post_match side t.ch (known ranked) in
        let next = stopped-IsNext side t once in
        (
          u,
          run-append steps (stopped side ∷ []) m
              ∙ ap (λ o. o >>= run post_match sends_to_a sends_to_b (stopped side ∷ [])) e,
          handled,
          elim next.0 [
            | inl (not_yet, empty) ↦ let c = sym not_yet ∙ handled in absurd (ground (arith, c))
            | inr (out, settled) ↦ settled.1 answers
          ],
        )
