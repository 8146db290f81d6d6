-- ===== src/Server/Relay/Filter/Relayed.antt =====
-- What the relay of server/relay.cpp hands on of a stream: its whole frames, as they are, but for
-- those that only a server may send.
use tetris_multiplayer_rl.Net.Framing.{is_server_only_type}
use mathlib.Core.List.{append_assoc}
use tetris_multiplayer_rl.Common.{
  ltb, leb, if◌then◌else◌, length, take, drop, ℕ, ◌+◌, ◌*◌, ◌≡◌, refl, sym, ap, ◌∙◌, Bool, true,
  false, ◌&&◌, List, [], ◌∷◌, ◌++◌,
}

-- The front of the stream: not all there, a length over the limit, or a frame of some bytes that
-- passes or is blocked.
pub data Cut : Type 0 where
  hold : Cut
  refuse : Cut
  pass : ℕ → Cut
  block : ℕ → Cut

unfoldable pub server_head : List ℕ → Bool
server_head [] = false
server_head (type ∷ s) = is_server_only_type type

unfoldable pub cut_of : ℕ → List ℕ → Cut
cut_of len s =
    if ltb 4097 len
    then refuse
    else if ltb (length s) (len + 4)
    then hold
    else if leb 1 len && server_head s
    then block (len + 6)
    else pass (len + 6)

unfoldable pub next_cut : List ℕ → Cut
unfolding cut_of
next_cut [] = hold
next_cut (b ∷ []) = hold
next_cut (lo ∷ hi ∷ s) = cut_of (lo + hi * 256) s

-- A stream, the bytes that are handed on, and the bytes that are kept.
pub data Relays : List ℕ → List ℕ → List ℕ → Type 0 where
  holding : (s : List ℕ) → next_cut s ≡ hold → Relays s [] s
  refusing : (s : List ℕ) → next_cut s ≡ refuse → Relays s [] []
  passing :
      (s : List ℕ) (need : ℕ) (out rest : List ℕ)
      → next_cut s ≡ pass need
      → Relays (drop need s) out rest
      → Relays s (take need s ++ out) rest
  blocking :
      (s : List ℕ) (need : ℕ) (out rest : List ℕ)
      → next_cut s ≡ block need
      → Relays (drop need s) out rest
      → Relays s out rest

module _ (len : ℕ) (s : List ℕ) where
  pub cut_of-refuse : ltb 4097 len ≡ true → cut_of len s ≡ refuse
  unfolding cut_of
  cut_of-refuse h = rw h

  module _ (h : ltb 4097 len ≡ false) where
    pub cut_of-hold : ltb (length s) (len + 4) ≡ true → cut_of len s ≡ hold
    unfolding cut_of
    cut_of-hold j = rw (h, j)

    module _ (j : ltb (length s) (len + 4) ≡ false) where
      pub cut_of-block : (leb 1 len && server_head s) ≡ true → cut_of len s ≡ block (len + 6)
      unfolding cut_of
      cut_of-block k = rw (h, j, k)

      pub cut_of-pass : (leb 1 len && server_head s) ≡ false → cut_of len s ≡ pass (len + 6)
      unfolding cut_of
      cut_of-pass k = rw (h, j, k)

-- The bytes of a list of sends.
unfoldable pub join : List (List ℕ) → List ℕ
join [] = []
join (x ∷ xs) = x ++ join xs

pub join-append : (xs ys : List (List ℕ)) → join (xs ++ ys) ≡ join xs ++ join ys
unfolding join
join-append [] ys = refl
join-append (x ∷ xs) ys =
    ap (λ z. x ++ z) (join-append xs ys) ∙ sym (append_assoc x (join xs) (join ys))
