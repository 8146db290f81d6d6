-- ===== src/Server/Relay/Winner.antt =====
-- Who a ranked match of server/relay.cpp is given to.
use tetris_multiplayer_rl.Common.Int.{ℤ}
use mathlib.Core.Path.{subst}
use tetris_multiplayer_rl.Server.Relay.Result.{Summary, cross_ok, Channel, winner_of}
use tetris_multiplayer_rl.Common.{
  ◌==◌, if◌then◌else◌, ==_iff, Bool-cases, if_true, if_false, ℕ, zero, suc, ◌<◌, bit_xor, ◌≡◌, refl,
  sym, ap, ◌∙◌, ◌↔◌, ◌⊎◌, inl, inr, Bool, true, false, not, ◌&&◌, none, some, arith,
}

-- One side says that it won and the other that it lost, and each saw the other's score and lines.
pub record Agree (a b : Summary) : Type 0 where
  pub winner : ((a.won ≡ 1) × (b.won ≡ 0)) ⊎ ((a.won ≡ 0) × (b.won ≡ 1))
  pub score_a : a.my_score ≡ b.opp_score
  pub score_b : b.my_score ≡ a.opp_score
  pub lines_a : a.my_lines ≡ b.opp_lines
  pub lines_b : b.my_lines ≡ a.opp_lines

both_true : (a b : Bool) → (a && b) ≡ true → (a ≡ true) × (b ≡ true)
both_true true true e = (refl, refl)
both_true true false e = absurd (ground (arith, e))
both_true false b e = absurd (ground (arith, e))

bits_differ :
    (x y : ℕ)
    → x < 2
    → y < 2
    → not (bit_xor x y == 0) ≡ true
    → ((x ≡ 1) × (y ≡ 0)) ⊎ ((x ≡ 0) × (y ≡ 1))
bits_differ zero zero h k e = absurd (ground (arith, e))
bits_differ zero (suc zero) h k e = inr (refl, refl)
bits_differ (suc zero) zero h k e = inl (refl, refl)
bits_differ (suc zero) (suc zero) h k e = absurd (ground (arith, e))
bits_differ (suc (suc x)) y h k e = absurd (omega (arith, h))
bits_differ zero (suc (suc y)) h k e = absurd (omega (arith, k))
bits_differ (suc zero) (suc (suc y)) h k e = absurd (omega (arith, k))

cross_ok-Agree : (a b : Summary) → a.won < 2 → b.won < 2 → cross_ok a b ≡ true → Agree a b
unfolding cross_ok
cross_ok-Agree a b h k e =
    let (front, lines) = both_true _ _ e in
    let (win, scores) = both_true _ _ front in
    let (s, t) = both_true _ _ scores in
    let (u, v) = both_true _ _ lines in
    record {
      winner = bits_differ a.won b.won h k win;
      score_a = (==_iff a.my_score b.opp_score).0 s;
      score_b = (==_iff b.my_score a.opp_score).0 t;
      lines_a = (==_iff a.my_lines b.opp_lines).0 u;
      lines_b = (==_iff b.my_lines a.opp_lines).0 v;
    }

Agree-cross_ok : (a b : Summary) → Agree a b → cross_ok a b ≡ true
unfolding cross_ok
Agree-cross_ok a b g =
    let s = (==_iff a.my_score b.opp_score).1 g.score_a in
    let t = (==_iff b.my_score a.opp_score).1 g.score_b in
    let u = (==_iff a.my_lines b.opp_lines).1 g.lines_a in
    let v = (==_iff b.my_lines a.opp_lines).1 g.lines_b in
    let win : not (bit_xor a.won b.won == 0) ≡ true = elim g.winner [
      | inl (x, y) ↦
          ap (λ (m : ℕ). not (bit_xor m b.won == 0)) x ∙ ap (λ (n : ℕ). not (bit_xor 1 n == 0)) y
      | inr (x, y) ↦
          ap (λ (m : ℕ). not (bit_xor m b.won == 0)) x ∙ ap (λ (n : ℕ). not (bit_xor 0 n == 0)) y
    ] in
    rw (win, s, t, u, v) refl

-- The side that says that it won.
abbrev pub Wins : Channel → Summary → ℤ → Type 0
Wins ch a w = ((a.won ≡ 1) × (w ≡ ch.player_a_id)) ⊎ ((a.won ≡ 0) × (w ≡ ch.player_b_id))

some_injective : (x y : ℤ) → some x ≡ some y → x ≡ y
some_injective x y e = ap (λ o. elim o [ none ↦ x | some z ↦ z ]) e

-- Where each summary says 0 or 1 for the win, a ranked match is given to a player exactly where the
-- two summaries agree on the winner, the scores and the lines, and then to the one who won; else it
-- is given to nobody.
pub winner_of-Agree :
    (ch : Channel) (a b : Summary) (w : ℤ)
    → a.won < 2
    → b.won < 2
    → (winner_of ch a b ≡ some w) ↔ (Agree a b × Wins ch a w)
unfolding winner_of
winner_of-Agree ch a b w h k = (forth, back)
  where
    side : ℤ
    side = if a.won == 1 then ch.player_a_id else ch.player_b_id

    side-Wins : Agree a b → Wins ch a side
    side-Wins g = elim g.winner [
      | inl (x, y) ↦ inl (x, if_true _ _ ((==_iff a.won 1).1 x))
      | inr (x, y) ↦
          let other : (a.won == 1) ≡ false = ground (arith, x) in inr (x, if_false _ _ other)
    ]

    Wins-side : Wins ch a w → side ≡ w
    Wins-side won = elim won [
      | inl (x, y) ↦ if_true _ _ ((==_iff a.won 1).1 x) ∙ sym y
      | inr (x, y) ↦
          let other : (a.won == 1) ≡ false = ground (arith, x) in if_false _ _ other ∙ sym y
    ]

    forth : (if cross_ok a b then some side else none) ≡ some w → Agree a b × Wins ch a w
    forth e = elim (Bool-cases (cross_ok a b)) [
      | inl right ↦
          let g = cross_ok-Agree a b h k right in
          let same = some_injective side w (sym (if_true _ _ right) ∙ e) in
          (g, subst (Wins ch a) same (side-Wins g))
      | inr wrong ↦ let c = sym (if_false _ _ wrong) ∙ e in absurd (ground (arith, c))
    ]

    back : Agree a b × Wins ch a w → (if cross_ok a b then some side else none) ≡ some w
    back (g, won) = if_true _ _ (Agree-cross_ok a b g) ∙ ap some (Wins-side won)
