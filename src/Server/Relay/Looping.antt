-- ===== src/Server/Relay/Looping.antt =====
-- The loop over the frames of server/relay.cpp ends, and changes no more of a match than its summaries.
use mathlib.Core.Path.{subst}
use tetris_multiplayer_rl.Net.Framing.Reads.{le_read_u32-Read, get_elem?-Read, le_read_u16-Read}
use tetris_multiplayer_rl.Net.Framing.{checksum, match_summary, is_server_only_type}
use tetris_multiplayer_rl.Common.Returns.{if_both, Returns, Returns-read, Returns-some}
use tetris_multiplayer_rl.Server.Relay.Ranked.{Ranked, ranked_loop, intercept, store_summary}
use tetris_multiplayer_rl.Server.Relay.Result.{parse_summary, Summary, Channel}
use tetris_multiplayer_rl.Common.{
  ltb, ◌==◌, Option-cases, has_value, length, get_elem?, take, drop, All, length-drop, All-append,
  get_elem?-take, ℕ, zero, suc, ◌+◌, ◌-◌, ◌≤◌, ◌<◌, ◌≡◌, refl, sym, ap, ◌∙◌, inl, inr, Bool, true,
  false, not, Option, none, some, List, [], ◌∷◌, ◌++◌, arith,
}

-- The rest of a match, its summaries aside.
abbrev pub SameMatch : Channel → Channel → Type 0
SameMatch c d =
    (d.summary_handled ≡ c.summary_handled)
    × (d.has_meta ≡ c.has_meta)
    × (d.player_a_id ≡ c.player_a_id)
    × (d.player_b_id ≡ c.player_b_id)

pub SameMatch-trans : (c d e : Channel) → SameMatch c d → SameMatch d e → SameMatch c e
SameMatch-trans c d e h k = (k.0 ∙ h.0, k.1 ∙ h.1, k.2 ∙ h.2, k.3 ∙ h.3)

-- A frame that a relay may hand on in a ranked match: one with a type, which is no summary and none
-- that only a server sends.
unfoldable pub IsForwarded : List ℕ → Type 0
IsForwarded frame =
    (type : ℕ) × (get_elem? frame 2 ≡ some type)
    × (is_server_only_type type ≡ false)
    × ((type == match_summary) ≡ false)

-- What a direction changes of a match and hands on.
abbrev pub Hands : Ranked → Ranked → Type 0
Hands st t = SameMatch st.ch t.ch × (All IsForwarded st.out → All IsForwarded t.out)

All-snoc :
    (frames : List (List ℕ)) (frame : List ℕ)
    → IsForwarded frame
    → All IsForwarded frames
    → All IsForwarded (frames ++ frame ∷ [])
All-snoc frames frame p all = All-append IsForwarded frames (frame ∷ []) all (p, tt)

taken-IsForwarded :
    (n : ℕ) (buf : List ℕ) (type : ℕ)
    → 2 < n
    → get_elem? buf 2 ≡ some type
    → is_server_only_type type ≡ false
    → (type == match_summary) ≡ false
    → IsForwarded (take n buf)
unfolding IsForwarded
taken-IsForwarded n buf type h e plain other = (type, get_elem?-take n 2 buf h ∙ e, plain, other)

module _ (sends : List (List ℕ) → List ℕ → Bool) (a_to_b : Bool) where
  store_summary-SameMatch : (s : Summary) (ch : Channel) → SameMatch ch (store_summary a_to_b s ch)
  unfolding store_summary
  store_summary-SameMatch s ch = go a_to_b
    where
      go : (side : Bool) → SameMatch ch (store_summary side s ch)
      go true =
          if_both (SameMatch ch) (has_value ch.summary_a) _ _ (λ there. (refl, refl, refl, refl))
            (λ new. (refl, refl, refl, refl))
      go false =
          if_both (SameMatch ch) (has_value ch.summary_b) _ _ (λ there. (refl, refl, refl, refl))
            (λ new. (refl, refl, refl, refl))

  intercept-SameMatch :
      (p : List ℕ) (chk : ℕ) (ch : Channel) → SameMatch ch (intercept a_to_b p chk ch)
  unfolding intercept
  intercept-SameMatch p chk ch =
      if_both (SameMatch ch) (not (chk == checksum p)) _ _ (λ wrong. (refl, refl, refl, refl))
        (λ right. elim (Option-cases (parse_summary p)) [
          | inl malformed ↦
              subst (SameMatch ch) (ap (λ o. stored ch o) (sym malformed)) (refl, refl, refl, refl)
          | inr (s, e) ↦
              subst (SameMatch ch) (ap (λ o. stored ch o) (sym e)) (store_summary-SameMatch s ch)
        ])
    where
      stored : Channel → Option Summary → Channel
      stored ch none = ch
      stored ch (some s) = store_summary a_to_b s ch

  -- Enough fuel: a round takes six bytes.
  pub ranked_loop-Returns :
      (fuel : ℕ) (st : Ranked)
      → length st.stream_buf < fuel
      → Returns (Hands st) (ranked_loop sends a_to_b fuel st)
  unfolding ranked_loop
  ranked_loop-Returns zero st h = absurd (omega (arith, h))
  ranked_loop-Returns (suc fuel) st h =
      let buf = st.stream_buf in
      let P = Hands st in
      let same : SameMatch st.ch st.ch = (refl, refl, refl, refl) in
      let keeps = λ (v : All IsForwarded st.out). v in
      if_both (Returns P) (ltb (length buf) 2) _ _ (λ short. (st, refl, (same, keeps)))
        (λ long. Returns-read P _ _ (le_read_u16-Read buf 0 (ground (arith, long))) (λ len.
          if_both (Returns P) (ltb 4097 len) _ _ (λ over. (_, refl, (same, keeps)))
            (λ fits.
              if_both (Returns P) (ltb (length buf) (2 + len + 4)) _ _
                (λ waits. (st, refl, (same, keeps)))
                (λ whole.
                  let size : 2 + len + 4 ≤ length buf = ground (arith, whole) in
                  let rest = drop (2 + len + 4) buf in
                  let less : length rest < fuel =
                    omega (arith, h, size, length-drop (2 + len + 4) buf) in
                  if_both (Returns P) (ltb len 1) _ _
                    (λ empty. ranked_loop-Returns fuel (record st { stream_buf = rest }) less)
                    (λ typed.
                      let (type, e) = get_elem?-Read buf 2 (omega (arith, size)) in
                      Returns-some P _ _ type e (
                        if_both (Returns P) (type == match_summary) _ _
                          (λ summary.
                            Returns-read P _ _
                              (le_read_u32-Read buf (2 + len) (omega (arith, size)))
                              (λ chk.
                                let p = take (len - 1) (drop 3 buf) in
                                let ch = intercept a_to_b p chk st.ch in
                                let (t, f, (k, v)) =
                                  ranked_loop-Returns fuel
                                    (record st { stream_buf = rest; ch = ch }) less in
                                let all =
                                  SameMatch-trans st.ch ch t.ch (intercept-SameMatch p chk st.ch)
                                    k in
                                (t, f, (all, v))))
                          (λ other.
                            if_both (Returns P) (is_server_only_type type) _ _
                              (λ server.
                                ranked_loop-Returns fuel (record st { stream_buf = rest }) less)
                              (λ plain.
                                let frame = take (2 + len + 4) buf in
                                let ok =
                                  taken-IsForwarded (2 + len + 4) buf type (omega arith) e plain
                                    other in
                                if_both (Returns P) (sends st.out frame) _ _
                                  (λ through.
                                    let (t, f, (k, v)) =
                                      ranked_loop-Returns fuel
                                        (record st {
                                          stream_buf = rest;
                                          out = st.out ++ frame ∷ [];
                                        })
                                        less in
                                    (t, f, (k, λ all. v (All-snoc st.out frame ok all))))
                                  (λ failed.
                                    (_, refl, (same, λ all. All-snoc st.out frame ok all)))))))))))
