-- ===== src/Server/Relay/History.antt =====
-- A ranked match of server/relay.cpp, step by step: the result is handled at most once, and once the
-- last direction stops, it is.
use tetris_multiplayer_rl.Common.Int.{pos, eqb_ℤ}
use tetris_multiplayer_rl.Common.Returns.{if_both}
use tetris_multiplayer_rl.Server.Relay.Result.{
  Summary, sends_b, finalize_ranked, Channel, send_results, send_survivors, sends_a, publish, posts,
  Saved, Post, Action, result_frame, unchanged, ranked_request, forfeit_request, publish_forfeit,
  finalize_forfeit,
}
use tetris_multiplayer_rl.Common.{
  ◌==◌, Bool-cases, has_value, ℕ, suc, ◌+◌, ◌≤◌, ◌≡◌, refl, sym, ◌∙◌, ◌⊎◌, inl, inr, true, false,
  not, ◌&&◌, ◌||◌, Option, none, some, List, [], ◌∷◌, arith,
}

-- The results that are sent to A, to B, and to the meta server.
unfoldable pub to_side_a : List Action → ℕ
to_side_a [] = 0
to_side_a (posts p ∷ acts) = to_side_a acts
to_side_a (sends_a fr ∷ acts) = suc (to_side_a acts)
to_side_a (sends_b fr ∷ acts) = to_side_a acts

unfoldable pub to_side_b : List Action → ℕ
to_side_b [] = 0
to_side_b (posts p ∷ acts) = to_side_b acts
to_side_b (sends_a fr ∷ acts) = to_side_b acts
to_side_b (sends_b fr ∷ acts) = suc (to_side_b acts)

unfoldable pub to_meta : List Action → ℕ
to_meta [] = 0
to_meta (posts p ∷ acts) = suc (to_meta acts)
to_meta (sends_a fr ∷ acts) = to_meta acts
to_meta (sends_b fr ∷ acts) = to_meta acts

-- At most one of each.
unfoldable pub AtMostOnce : List Action → Type 0
AtMostOnce acts = (to_side_a acts ≤ 1) × (to_side_b acts ≤ 1) × (to_meta acts ≤ 1)

-- How many sides are told the result.
unfoldable pub told : List Action → ℕ
unfolding to_side_a to_side_b
told acts = to_side_a acts + to_side_b acts

-- The meta server is there, and both players are known to it.
abbrev pub IsRanked : Channel → Type 0
IsRanked ch =
    (ch.has_meta ≡ true)
    × (eqb_ℤ ch.player_a_id (pos 0) ≡ false)
    × (eqb_ℤ ch.player_b_id (pos 0) ≡ false)

module _ (post_match : Post → Option Saved) where
  abbrev pub Answers : Type 0
  Answers = (r : Post) → (saved : Saved) × (post_match r ≡ some saved)

  -- The result of a match is out: at most once, and where the meta server answers, a side is told.
  abbrev pub Settled : List Action → Type 0
  Settled acts = AtMostOnce acts × (Answers → 1 ≤ told acts)

  -- A result step does nothing, or it settles a match that is not settled.
  abbrev pub Settles : Channel → Channel × List Action → Type 0
  Settles ch done =
      (done ≡ (ch, []))
      ⊎ ((ch.summary_handled ≡ false)
          × (done.0.summary_handled ≡ true)
          × Settled done.1
          × (IsRanked ch → IsRanked done.0))

  send_results_lem :
      (ch : Channel) (o : Option Saved)
      → (to_side_a (send_results post_match ch o) ≡ 1)
        × (to_side_b (send_results post_match ch o) ≡ 1)
        × (to_meta (send_results post_match ch o) ≡ 0)
  unfolding send_results to_side_a to_side_b to_meta
  send_results_lem ch none = (refl, refl, refl)
  send_results_lem ch (some res) = (refl, refl, refl)

  publish-Settled : (ch : Channel) (a b : Summary) → Settled (publish post_match ch a b)
  unfolding publish to_side_a to_side_b to_meta told AtMostOnce
  publish-Settled ch a b =
      if_both Settled ch.has_meta _ _
        (λ meta.
          let (u, v, w) = send_results_lem ch (post_match (ranked_request post_match ch a b)) in
          ((omega (arith, u), omega (arith, v), omega (arith, w)), λ answers. omega (arith, u, v)))
        (λ alone.
          let (u, v, w) = send_results_lem ch none in
          ((omega (arith, u), omega (arith, v), omega (arith, w)), λ answers. omega (arith, u, v)))

  pub finalize_ranked-Settles : (ch : Channel) → Settles ch (finalize_ranked post_match ch)
  unfolding finalize_ranked
  finalize_ranked-Settles ch =
      if_both (Settles ch) ch.summary_handled _ _ (λ handled. inl refl)
        (λ fresh. both ch.summary_a ch.summary_b fresh)
    where
      both :
          (a b : Option Summary)
          → ch.summary_handled ≡ false
          → Settles ch (elim a [
            | none ↦ (ch, [])
            | some s ↦ elim b [
              | none ↦ (ch, [])
              | some t ↦ (record ch { summary_handled = true }, publish post_match ch s t)
            ]
          ])
      both none b fresh = inl refl
      both (some s) none fresh = inl refl
      both (some s) (some t) fresh = inr (fresh, refl, publish-Settled ch s t, λ r. r)

  send_survivors_lem :
      (side : ℕ) (fa fb : List ℕ)
      → (to_side_a (send_survivors post_match side fa fb) ≤ 1)
        × (to_side_b (send_survivors post_match side fa fb) ≤ 1)
        × (to_meta (send_survivors post_match side fa fb) ≡ 0)
        × (1 ≤ told (send_survivors post_match side fa fb))
  unfolding send_survivors told to_side_a to_side_b to_meta
  send_survivors_lem side fa fb = elim (Bool-cases (side == 1)) [
    | inl a_lost ↦
        let b_stays : (side == 2) ≡ false = ground (arith, a_lost) in
        rw (a_lost, b_stays) (omega arith, omega arith, refl, omega arith)
    | inr a_stays ↦ elim (Bool-cases (side == 2)) [
      | inl b_lost ↦ rw (a_stays, b_lost) (omega arith, omega arith, refl, omega arith)
      | inr b_stays ↦ rw (a_stays, b_stays) (omega arith, omega arith, refl, omega arith)
    ]
  ]

  publish_forfeit-Settled : (side : ℕ) (ch : Channel) → Settled (publish_forfeit post_match side ch)
  unfolding publish_forfeit to_side_a to_side_b to_meta told AtMostOnce
  publish_forfeit-Settled side ch =
      after (forfeit_request post_match ch ch.summary_a ch.summary_b) (post_match _) refl
    where
      after :
          (r : Post) (o : Option Saved)
          → post_match r ≡ o
          → Settled (
              posts r ∷ elim o [
                | none ↦ []
                | some res ↦
                    send_survivors post_match side (result_frame res.a) (result_frame res.b)
              ])
      after r none e = (
        (omega arith, omega arith, omega arith),
        λ answers. let c = sym e ∙ (answers r).1 in absurd (ground (arith, c)),
      )
      after r (some res) e =
          let (u, v, w, x) = send_survivors_lem side (result_frame res.a) (result_frame res.b) in
          ((u, v, omega (arith, w)), λ answers. x)

  pub finalize_forfeit-Settles :
      (side : ℕ) (ch : Channel) → Settles ch (finalize_forfeit post_match side ch)
  unfolding finalize_forfeit AtMostOnce
  finalize_forfeit-Settles side ch =
      let P = Settles ch in
      if_both P (not ch.has_meta || eqb_ℤ ch.player_a_id (pos 0) || eqb_ℤ ch.player_b_id (pos 0)) _
        _ (λ unranked. inl refl)
        (λ ranked.
          if_both P ch.summary_handled _ _ (λ handled. inl refl)
            (λ fresh.
              if_both P (has_value ch.summary_a && has_value ch.summary_b) _ _
                (λ both. finalize_ranked-Settles ch)
                (λ missing.
                  if_both P (not (has_value ch.summary_a) && not (has_value ch.summary_b)) _ _
                    (λ neither.
                      let (u, v, w, x) =
                        send_survivors_lem side (result_frame (unchanged ch.player_a_elo))
                          (result_frame (unchanged ch.player_b_elo)) in
                      inr (fresh, refl, ((u, v, omega (arith, w)), λ answers. x), λ r. r))
                    (λ one. inr (fresh, refl, publish_forfeit-Settled side ch, λ r. r)))))

  finalize_ranked-handled :
      (ch : Channel)
      → (has_value ch.summary_a && has_value ch.summary_b) ≡ true
      → (finalize_ranked post_match ch).0.summary_handled ≡ true
  unfolding finalize_ranked
  finalize_ranked-handled ch both =
      if_both (λ (d : Channel × List Action). d.0.summary_handled ≡ true) ch.summary_handled _ _
        (λ handled. handled) (λ fresh. there ch.summary_a ch.summary_b both)
    where
      there :
          (a b : Option Summary)
          → (has_value a && has_value b) ≡ true
          → (elim a as (λ o. Channel × List Action) [
            | none ↦ (ch, [])
            | some s ↦ elim b [
              | none ↦ (ch, [])
              | some t ↦ (record ch { summary_handled = true }, publish post_match ch s t)
            ]
          ]).0.summary_handled
            ≡ true
      there none b e = absurd (ground (arith, e))
      there (some s) none e = absurd (ground (arith, e))
      there (some s) (some t) e = refl

  -- The end of a ranked match handles its result.
  pub finalize_forfeit-handled :
      (side : ℕ) (ch : Channel)
      → IsRanked ch
      → (finalize_forfeit post_match side ch).0.summary_handled ≡ true
  unfolding finalize_forfeit
  finalize_forfeit-handled side ch (meta, a_known, b_known) =
      let P = λ (d : Channel × List Action). d.0.summary_handled ≡ true in
      if_both P (not ch.has_meta || eqb_ℤ ch.player_a_id (pos 0) || eqb_ℤ ch.player_b_id (pos 0)) _
        _ (λ unranked. absurd (ground (arith, unranked, meta, a_known, b_known)))
        (λ ranked.
          if_both P ch.summary_handled _ _ (λ handled. handled)
            (λ fresh.
              if_both P (has_value ch.summary_a && has_value ch.summary_b) _ _
                (finalize_ranked-handled ch)
                (λ missing.
                  if_both P (not (has_value ch.summary_a) && not (has_value ch.summary_b)) _ _
                    (λ neither. refl) (λ one. refl))))
