-- ===== src/Server/Lobby/Hearing.antt =====
-- `consume_ready_frames` of server/relay.cpp against the parser of net/framing.cpp: which frames it
-- takes from the front of the buffer, and what the other player is sent for them.
use tetris_multiplayer_rl.Net.Framing.Skips.{Skips-trans, Skips}
use tetris_multiplayer_rl.Common.Returns.{if_both}
use tetris_multiplayer_rl.Server.Lobby.{
  broken, ready_frame, accepted, declined, pending, Answer, forward_ready, answer_with, Consumed,
}
use tetris_multiplayer_rl.Net.Framing.{queue_cancel, ready_msg, Frame}
use tetris_multiplayer_rl.Common.{
  ◌==◌, if◌then◌else◌, Bool-cases, if_true, if_false, ℕ, ◌≡◌, ◌∙◌, inl, inr, Bool, List, [], ◌∷◌,
  ◌++◌,
}

-- What a frame says in the lobby.
unfoldable pub says : Frame → Answer
says f =
    if f.type == ready_msg
    then elim f.payload [ [] ↦ declined | v ∷ more ↦ if v == 0 then declined else accepted ]
    else if f.type == queue_cancel
    then declined
    else pending

-- What is read of a buffer, and what is sent for it.
pub data Hears : List ℕ → List (List ℕ) → Consumed → Type 0 where
  waits :
      (buf rest : List ℕ) (sent : List (List ℕ))
      → Skips buf rest []
      → Hears buf sent (record { answer = pending; buf = rest; sent = sent })
  agrees :
      (buf rest : List ℕ) (sent : List (List ℕ)) (f : Frame)
      → says f ≡ accepted
      → Skips buf rest (f ∷ [])
      → Hears buf sent (record { answer = accepted; buf = rest; sent = sent ++ ready_frame 1 ∷ [] })
  refuses :
      (buf rest : List ℕ) (sent : List (List ℕ)) (f : Frame)
      → says f ≡ declined
      → Skips buf rest (f ∷ [])
      → Hears buf sent (record { answer = declined; buf = rest; sent = sent ++ ready_frame 0 ∷ [] })
  unsent :
      (buf rest : List ℕ) (sent : List (List ℕ)) (f : Frame)
      → says f ≡ accepted
      → Skips buf rest (f ∷ [])
      → Hears buf sent (record { answer = broken; buf = rest; sent = sent ++ ready_frame 1 ∷ [] })
  overlong :
      (buf : List ℕ) (sent : List (List ℕ))
      → Hears buf sent (record { answer = broken; buf = []; sent = sent })

-- Behind bytes that are no frame.
pub Hears-behind :
    (buf mid : List ℕ) (sent : List (List ℕ)) (c : Consumed)
    → Skips buf mid []
    → Hears mid sent c
    → Hears buf sent c
Hears-behind buf mid sent c g (waits _ rest _ f) =
    waits buf rest sent (Skips-trans buf mid rest [] [] g f)
Hears-behind buf mid sent c g (agrees _ rest _ x e f) =
    agrees buf rest sent x e (Skips-trans buf mid rest [] (x ∷ []) g f)
Hears-behind buf mid sent c g (refuses _ rest _ x e f) =
    refuses buf rest sent x e (Skips-trans buf mid rest [] (x ∷ []) g f)
Hears-behind buf mid sent c g (unsent _ rest _ x e f) =
    unsent buf rest sent x e (Skips-trans buf mid rest [] (x ∷ []) g f)
Hears-behind buf mid sent c g (overlong _ _) = overlong buf sent

module _ (sends : List (List ℕ) → List ℕ → Bool) where
  pub Hears-refused :
      (buf rest : List ℕ) (sent : List (List ℕ)) (f : Frame)
      → says f ≡ declined
      → Skips buf rest (f ∷ [])
      → Hears buf sent (answer_with sends 0 rest sent)
  unfolding answer_with forward_ready
  Hears-refused buf rest sent f e g = refuses buf rest sent f e g

  pub Hears-answer_with :
      (v : ℕ) (buf rest : List ℕ) (sent : List (List ℕ)) (f : Frame)
      → says f ≡ (if v == 0 then declined else accepted)
      → Skips buf rest (f ∷ [])
      → Hears buf sent (answer_with sends (if v == 0 then 0 else 1) rest sent)
  unfolding answer_with forward_ready
  Hears-answer_with v buf rest sent f e g = elim (Bool-cases (v == 0)) [
    | inl z ↦ let said = e ∙ if_true declined accepted z in rw z (refuses buf rest sent f said g)
    | inr p ↦
        let said = e ∙ if_false declined accepted p in
        let next = λ (a : Answer).
          Hears buf sent (record { answer = a; buf = rest; sent = sent ++ ready_frame 1 ∷ [] }) in
        rw p (
          if_both next (sends sent (ready_frame 1)) accepted broken
            (λ _. agrees buf rest sent f said g) (λ _. unsent buf rest sent f said g))
  ]
