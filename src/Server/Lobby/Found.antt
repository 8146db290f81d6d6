-- ===== src/Server/Lobby/Found.antt =====
-- MATCH_FOUND from server/relay.cpp to net/session.cpp: what the relay wrote the player reads.
use tetris_multiplayer_rl.Net.Framing.Words.{le_read_u64-written}
use tetris_multiplayer_rl.Net.Session.Handle.{role_of}
use tetris_multiplayer_rl.Net.Framing.RoundTrip.{length-le_bytes}
use tetris_multiplayer_rl.Net.Framing.{le_write, le_write_u64, le_read_u64}
use tetris_multiplayer_rl.Server.Lobby.Pump.{match_found_payload}
use tetris_multiplayer_rl.Net.Session.{peer, host, role_byte, Role}
use tetris_multiplayer_rl.Net.Session.Matching.{
  or_default, read_short_string, short_string, parse_match_icons, Seeker, take_match,
}
use tetris_multiplayer_rl.Common.{
  ltb, if◌then◌else◌, Bool-cases, if_false, length, get_elem?, take, drop, length-append,
  take-append_length, drop-append_length, get_elem?-drop, drop-drop, length-take, u8, le_bytes, ℕ,
  zero, suc, ◌+◌, ◌^◌, ◌≤◌, ◌<◌, ◌≡◌, refl, sym, ap, ◌∙◌, inl, inr, false, Option, none, some, List,
  [], ◌∷◌, ◌++◌, arith,
}
use mathlib.Core.List.{append-nil, append_assoc}

-- What a string in a byte's length keeps.
abbrev pub cut : List ℕ → List ℕ
cut s = take 255 s

take_short : (n : ℕ) (s : List ℕ) → length s ≤ n → take n s ≡ s
take_short zero [] h = refl
take_short zero (x ∷ s) h = absurd (omega arith)
take_short (suc n) [] h = refl
take_short (suc n) (x ∷ s) h = ap (◌∷◌ x) (take_short n s (omega arith))

not_over : (n : ℕ) → ltb 255 n ≡ false → n ≤ 255
not_over n h = ground (arith, h)

short_string_lem : (s : List ℕ) → short_string s ≡ length (cut s) ∷ cut s
unfolding short_string
short_string_lem s = elim (Bool-cases (ltb 255 (length s))) [
  | inl over ↦
      let size : length (cut s) ≡ 255 = length-take 255 s (ground (arith, over)) in
      rw (over, size) refl
  | inr fits ↦
      let whole : cut s ≡ s = take_short 255 s (ground (arith, fits)) in
      let small = not_over (length s) fits in
      let byte : u8 (length s) ≡ length s = omega (arith, small) in
      let all : take (length s) s ≡ s = take_short (length s) s (omega arith) in
      rw (fits, whole, byte, all) refl
]

read_short_string_at :
    (payload : List ℕ) (pos n : ℕ)
    → get_elem? payload pos ≡ some n
    → ltb (length payload) (pos + 1 + n) ≡ false
    → read_short_string payload pos ≡ (take n (drop (pos + 1) payload), pos + 1 + n)
unfolding read_short_string
read_short_string_at payload pos n e h =
    ap
      (λ (o : Option ℕ). elim o as (λ _. List ℕ × ℕ) [
        | none ↦ ([], pos)
        | some m ↦
            if ltb (length payload) (pos + 1 + m)
            then ([], pos + 1)
            else (take m (drop (pos + 1) payload), pos + 1 + m)
      ])
      e
    ∙ if_false _ _ h

role_back : (r : Role) → role_of (role_byte r) ≡ r
unfolding role_of role_byte
role_back host = refl
role_back peer = refl

-- The player who knows the match.
abbrev pub knows : ℕ → ℕ → ℕ → Role → List ℕ × List ℕ → Seeker → Seeker
knows start_tick input_delay seed role icons s = record s {
  session = record s.session {
    seed_params = record {
      seed = seed;
      start_tick = start_tick;
      input_delay = input_delay;
      role = role;
    };
  };
  local_icon_id = icons.0;
  remote_icon_id = icons.1;
}

-- What is read of a payload, one field after the other.
take_match_of :
    (start_tick input_delay : ℕ) (payload : List ℕ) (s : Seeker) (role : Role) (seed : ℕ)
    (icons : List ℕ × List ℕ)
    → get_elem? payload 0 ≡ some (role_byte role)
    → le_read_u64 payload 1 ≡ some seed
    → parse_match_icons payload ≡ icons
    → take_match start_tick input_delay payload s
      ≡ some (knows start_tick input_delay seed role icons s)
unfolding take_match
take_match_of start_tick input_delay payload s role seed icons first word texts =
    let read : take_match start_tick input_delay payload s
        ≡ some (
            knows start_tick input_delay seed (role_of (role_byte role)) (parse_match_icons payload)
              s) =
      rw (first, word) refl in
    read
    ∙ ap (λ x. some (knows start_tick input_delay seed (role_of (role_byte role)) x s)) texts
    ∙ ap (λ x. some (knows start_tick input_delay seed x icons s)) (role_back role)

-- A string read where it was written.
read_short_string-written :
    (v s rest : List ℕ)
    → read_short_string (v ++ (short_string s ++ rest)) (length v)
      ≡ (cut s, length (v ++ short_string s))
read_short_string-written v s rest =
    let c = cut s in
    let payload = v ++ (length c ∷ (c ++ rest)) in
    let whole : v ++ (short_string s ++ rest) ≡ payload =
      ap (λ x. v ++ (x ++ rest)) (short_string_lem s) in
    let at : get_elem? payload (length v) ≡ some (length c) =
      ap (get_elem? payload) (omega arith)
      ∙ get_elem?-drop (length v) 0 payload
      ∙ ap (λ t. get_elem? t 0) (drop-append_length v (length c ∷ (c ++ rest))) in
    let size : length payload ≡ length v + suc (length c + length rest) =
      omega (arith, length-append v (length c ∷ (c ++ rest)), length-append c rest) in
    let there : ltb (length payload) (length v + 1 + length c) ≡ false = ground (arith, size) in
    let behind : drop (length v + 1) payload ≡ c ++ rest =
      sym (drop-drop (length v) 1 payload)
      ∙ ap (drop 1) (drop-append_length v (length c ∷ (c ++ rest))) in
    let text : take (length c) (c ++ rest) ≡ c = take-append_length c rest in
    let end : length v + 1 + length c ≡ length (v ++ short_string s) =
      omega (arith, length-append v (short_string s), ap length (short_string_lem s)) in
    ap (λ x. read_short_string x (length v)) whole
    ∙ read_short_string_at payload (length v) (length c) at there
    ∙ ap (λ x. (x, length v + 1 + length c)) (ap (take (length c)) behind ∙ text)
    ∙ ap (λ (n : ℕ). (c, n)) end

module _ (role : Role) (seed : ℕ) (my_icon peer_icon match_uuid : List ℕ) where
  abbrev front : List ℕ
  front = role_byte role ∷ le_bytes 8 seed

  abbrev behind_mine : List ℕ
  behind_mine = short_string (or_default peer_icon) ++ (short_string match_uuid ++ [])

  -- The payload, by what is read of it one after the other.
  payload_lem :
      match_found_payload role seed my_icon peer_icon match_uuid
      ≡ front ++ (short_string (or_default my_icon) ++ behind_mine)
  unfolding match_found_payload le_write_u64 le_write
  payload_lem =
      let mine = short_string (or_default my_icon) in
      let other = short_string (or_default peer_icon) in
      ap (λ x. x ++ short_string match_uuid) (append_assoc front mine other)
      ∙ append_assoc front (mine ++ other) (short_string match_uuid)
      ∙ ap (λ x. front ++ x)
          (append_assoc mine other (short_string match_uuid)
            ∙ ap (λ x. mine ++ (other ++ x)) (sym (append-nil (short_string match_uuid))))

  or_default-cut : (icon : List ℕ) → or_default (cut (or_default icon)) ≡ cut (or_default icon)
  unfolding or_default
  or_default-cut [] = refl
  or_default-cut (c ∷ icon) = refl

  icons_lem :
      parse_match_icons (match_found_payload role seed my_icon peer_icon match_uuid)
      ≡ (cut (or_default my_icon), cut (or_default peer_icon))
  unfolding parse_match_icons
  icons_lem =
      let mine = short_string (or_default my_icon) in
      let other = short_string (or_default peer_icon) in
      let nine : length front ≡ 9 = omega (arith, length-le_bytes 8 seed) in
      let first =
        ap (read_short_string (front ++ (mine ++ behind_mine))) (sym nine)
        ∙ read_short_string-written front (or_default my_icon) behind_mine in
      let at_next =
        ap (λ x. read_short_string x (length (front ++ mine)))
          (sym (append_assoc front mine behind_mine))
        ∙ read_short_string-written (front ++ mine) (or_default peer_icon)
            (short_string match_uuid ++ []) in
      rw (payload_lem, first, at_next, or_default-cut my_icon, or_default-cut peer_icon) refl

  -- The bytes that the relay writes into MATCH_FOUND are read back by the player: the seed, the role,
  -- and both icons, an empty one as "default" and a long one by its first 255 bytes.
  pub take_match-match_found_payload :
      (start_tick input_delay : ℕ) (s : Seeker)
      → seed < 2 ^ 64
      → take_match start_tick input_delay
          (match_found_payload role seed my_icon peer_icon match_uuid)
          s
        ≡ some (
            knows start_tick input_delay seed role
              (cut (or_default my_icon), cut (or_default peer_icon))
              s)
  unfolding match_found_payload le_write_u64 le_write
  take_match-match_found_payload start_tick input_delay s h =
      let payload = match_found_payload role seed my_icon peer_icon match_uuid in
      let mine = short_string (or_default my_icon) in
      let word =
        ap (λ x. le_read_u64 x 1) payload_lem
        ∙ le_read_u64-written (role_byte role ∷ []) (mine ++ behind_mine) seed h in
      take_match_of start_tick input_delay payload s role seed
        (cut (or_default my_icon), cut (or_default peer_icon)) refl word icons_lem
