-- ===== src/Server/Admission.antt =====
-- server/ip_admission.h and server/player_session.h: the slots of an address and the lease of a
-- player. An address is a number, 0 where the text is empty; `unknown` is the number of that text.
-- A slot lives as long as its last copy, whose end is `release`.
pub mod Slots
pub mod Counted
pub mod Leases
mod Tests
use tetris_multiplayer_rl.Common.Int.{ℤ, pos, negsuc}
use tetris_multiplayer_rl.Common.Assoc.{find, insert, erase}
use tetris_multiplayer_rl.Common.{
  ltb, ◌==◌, if◌then◌else◌, ℕ, ◌+◌, ◌-◌, ◌^◌, Bool, false, not, ◌||◌, Option, none, some, List, [],
  ◌∷◌,
}

pub data Kind : Type 0 where
  handshake : Kind
  session : Kind

pub record Slot : Type 0 where
  pub key : ℕ
  pub kind : Kind

pub record Admission : Type 0 where
  pub handshakes : List (ℕ × ℕ)
  pub sessions : List (ℕ × ℕ)
  pub session_limit : ℕ

abbrev pub k_max_handshakes_per_ip : ℕ
k_max_handshakes_per_ip = 16

abbrev pub k_max_sessions_per_ip : ℕ
k_max_sessions_per_ip = 64

unfoldable pub set_session_limit : ℕ → Admission → Admission
set_session_limit n a = record a { session_limit = if n == 0 then 1 else n }

unfoldable pub table_of : Kind → Admission → List (ℕ × ℕ)
table_of handshake a = a.handshakes
table_of session a = a.sessions

unfoldable pub limit_of : Kind → Admission → ℕ
limit_of handshake a = k_max_handshakes_per_ip
limit_of session a = a.session_limit

unfoldable pub with_table : Kind → List (ℕ × ℕ) → Admission → Admission
with_table handshake t a = record a { handshakes = t }
with_table session t a = record a { sessions = t }

-- How many an address has: none where it has no entry.
unfoldable pub taken : ℕ → List (ℕ × ℕ) → ℕ
taken key t = elim (find key t) [ none ↦ 0 | some n ↦ n ]

module _ (unknown : ℕ) where
  unfoldable pub acquire : ℕ → Kind → Admission → Option Slot × Admission
  unfolding table_of limit_of with_table taken
  acquire key kind a =
      let k = if key == 0 then unknown else key in
      let t = table_of kind a in
      let n = taken k t in
      if not (ltb n (limit_of kind a))
      then (none, a)
      else (some (record { key = k; kind = kind }), with_table kind (insert k (n + 1) t) a)

-- The end of a slot. An entry of 0 wraps around.
unfoldable pub release : Slot → Admission → Admission
unfolding table_of with_table
release s a =
    let t = table_of s.kind a in
    elim (find s.key t) [
      | none ↦ a
      | some n ↦
          let left = if n == 0 then 2 ^ 64 - 1 else n - 1 in
          with_table s.kind (if left == 0 then erase s.key t else insert s.key left t) a
    ]

-- The players with a lease. A player that is not ranked gets none.
unfoldable pub is_active : ℕ → List ℕ → Bool
is_active id [] = false
is_active id (j ∷ active) = (j == id) || is_active id active

unfoldable pub acquire_lease : ℤ → List ℕ → Option ℕ × List ℕ
unfolding is_active
acquire_lease (negsuc n) active = (none, active)
acquire_lease (pos n) active =
    if (n == 0) || is_active n active then (none, active) else (some n, n ∷ active)

unfoldable pub release_lease : ℕ → List ℕ → List ℕ
release_lease id [] = []
release_lease id (j ∷ active) =
    let rest = release_lease id active in if j == id then rest else j ∷ rest
