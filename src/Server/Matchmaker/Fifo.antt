-- ===== src/Server/Matchmaker/Fifo.antt =====
-- The queue of server/matchmaker.cpp pairs the two who have waited longest.
use tetris_multiplayer_rl.Server.Matchmaker.{
  still_active, drop_inactive, PlayerInfo, Paired, Matchmaker, next_seed, wait_for_pair,
}
use tetris_multiplayer_rl.Common.{
  ltb, Option-cases, if_false, length, All, u32, ℕ, ◌+◌, ◌≤◌, ◌≡◌, refl, ap, ◌∙◌, ◌⊎◌, inl, inr,
  false, ◌||◌, Option, none, some, List, [], ◌∷◌, ◌++◌, arith,
}

module _ (received : PlayerInfo → Option (List ℕ)) where
  -- A player who is not there any more.
  abbrev pub HasLeft : PlayerInfo → Type 0
  HasLeft p = still_active received p ≡ none

  -- All have left, or the first who is there comes to the front.
  abbrev pub Dropped : List PlayerInfo → List PlayerInfo → Type 0
  Dropped q left =
      ((left ≡ []) × All HasLeft q)
      ⊎ ((xs : List PlayerInfo) × (p : PlayerInfo) × (there : PlayerInfo) × (rest : List PlayerInfo)
          × (q ≡ xs ++ p ∷ rest)
          × All HasLeft xs
          × (still_active received p ≡ some there)
          × (left ≡ there ∷ rest))

  drop_inactive-Dropped : (q : List PlayerInfo) → Dropped q (drop_inactive received q)
  unfolding drop_inactive
  drop_inactive-Dropped [] = inl (refl, tt)
  drop_inactive-Dropped (p ∷ q) = elim (Option-cases (still_active received p)) [
    | inl gone ↦
        let same : drop_inactive received (p ∷ q) ≡ drop_inactive received q =
          ap (λ o. elim o [ none ↦ drop_inactive received q | some t ↦ t ∷ q ]) gone in
        elim (drop_inactive-Dropped q) [
          | inl (empty, all) ↦ inl (same ∙ empty, (gone, all))
          | inr (xs, x, there, rest, e, all, active, left) ↦
              inr (p ∷ xs, x, there, rest, ap (◌∷◌ p) e, (gone, all), active, same ∙ left)
        ]
    | inr (t, active) ↦ inr (
      [],
      p,
      t,
      q,
      refl,
      tt,
      active,
      ap (λ o. elim o [ none ↦ drop_inactive received q | some t ↦ t ∷ q ]) active,
    )
  ]

  -- The three ends of a pass.
  module _ (m : Matchmaker) (runs : m.stopping ≡ false) (two : 2 ≤ length m.waiting) where
    abbrev pairs : List PlayerInfo → PlayerInfo → Option Paired × Matchmaker
    pairs [] a = (none, record m { waiting = a ∷ [] })
    pairs (b ∷ rest) a = (
      some (record { a = a; b = b; seed = next_seed m.seed_state; match_id = m.next_match_id }),
      record m {
        waiting = rest;
        seed_state = next_seed m.seed_state;
        next_match_id = u32 (m.next_match_id + 1);
      },
    )

    abbrev picks : List PlayerInfo → Option Paired × Matchmaker
    picks [] = (none, record m { waiting = [] })
    picks (a ∷ behind) = pairs (drop_inactive received behind) a

    wait_for_pair-picks : wait_for_pair received m ≡ picks (drop_inactive received m.waiting)
    unfolding wait_for_pair
    wait_for_pair-picks =
        let enough : (m.stopping || ltb (length m.waiting) 2) ≡ false = ground (arith, runs, two) in
        if_false _ _ enough ∙ go (drop_inactive received m.waiting)
      where
        go2 :
            (behind : List PlayerInfo) (a : PlayerInfo)
            → elim behind as (λ q. Option Paired × Matchmaker) [
              | [] ↦ (none, record m { waiting = a ∷ [] })
              | b ∷ rest ↦ (
                some (record {
                  a = a;
                  b = b;
                  seed = next_seed m.seed_state;
                  match_id = m.next_match_id;
                }),
                record m {
                  waiting = rest;
                  seed_state = next_seed m.seed_state;
                  next_match_id = u32 (m.next_match_id + 1);
                },
              )
            ]
              ≡ pairs behind a
        go2 [] a = refl
        go2 (b ∷ rest) a = refl

        go :
            (q : List PlayerInfo)
            → elim q as (λ q. Option Paired × Matchmaker) [
              | [] ↦ (none, record m { waiting = [] })
              | a ∷ behind ↦
                  elim (drop_inactive received behind) as (λ q. Option Paired × Matchmaker) [
                    | [] ↦ (none, record m { waiting = a ∷ [] })
                    | b ∷ rest ↦ (
                      some (record {
                        a = a;
                        b = b;
                        seed = next_seed m.seed_state;
                        match_id = m.next_match_id;
                      }),
                      record m {
                        waiting = rest;
                        seed_state = next_seed m.seed_state;
                        next_match_id = u32 (m.next_match_id + 1);
                      },
                    )
                  ]
            ]
              ≡ picks q
        go [] = refl
        go (a ∷ behind) = go2 (drop_inactive received behind) a

    -- Where two or more wait and the server runs on: the two who have waited longest of those still
    -- there are paired, the first as the host, with the next seed and the next number, and those
    -- behind them wait on; or no two are still there, and the one who is waits on.
    pub wait_for_pair-first :
        ((xs : List PlayerInfo) × (p : PlayerInfo) × (ys : List PlayerInfo) × (q : PlayerInfo)
          × (rest : List PlayerInfo) × (a : PlayerInfo) × (b : PlayerInfo) × (m.waiting
              ≡ xs ++ p ∷ (ys ++ q ∷ rest))
          × All HasLeft xs
          × All HasLeft ys
          × (still_active received p ≡ some a)
          × (still_active received q ≡ some b)
          × ((wait_for_pair received m).0
              ≡ some (record {
                a = a;
                b = b;
                seed = next_seed m.seed_state;
                match_id = m.next_match_id;
              }))
          × ((wait_for_pair received m).1.waiting ≡ rest))
        ⊎ ((xs : List PlayerInfo) × (p : PlayerInfo) × (ys : List PlayerInfo) × (a : PlayerInfo)
            × (m.waiting ≡ xs ++ p ∷ ys)
            × All HasLeft xs
            × All HasLeft ys
            × (still_active received p ≡ some a)
            × ((wait_for_pair received m) ≡ (none, record m { waiting = a ∷ [] })))
        ⊎ (All HasLeft m.waiting × ((wait_for_pair received m) ≡ (none, record m { waiting = [] })))
    wait_for_pair-first = elim (drop_inactive-Dropped m.waiting) [
      | inl (empty, all) ↦ inr (inr (all, wait_for_pair-picks ∙ ap picks empty))
      | inr (xs, p, a, behind, e, all, active, left) ↦
          let first = wait_for_pair-picks ∙ ap picks left in
          elim (drop_inactive-Dropped behind) [
            | inl (empty, others) ↦
                inr (
                  inl (xs, p, behind, a, e, all, others, active, first ∙ ap (λ q. pairs q a) empty))
            | inr (ys, q, b, rest, d, others, also, next) ↦
                let out = first ∙ ap (λ q. pairs q a) next in
                inl (
                  xs,
                  p,
                  ys,
                  q,
                  rest,
                  a,
                  b,
                  e ∙ ap (λ t. xs ++ p ∷ t) d,
                  all,
                  others,
                  active,
                  also,
                  ap (λ o. o.0) out,
                  ap (λ o. o.1.waiting) out,
                )
          ]
    ]
