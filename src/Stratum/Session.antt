-- ===== src/Stratum/Session.antt =====
-- internal/stratum/session: the session (session.go), the extranonce1 allocator (extranonce.go) and
-- the sessions of a node with their cap per address (manager.go). Times are milliseconds.
use mathlib.Core.List.{reverse}
use icminers_stratum_v.Prelude.{
  ℕ, ◌+◌, ◌-◌, ◌%◌, ◌^◌, [], ◌∷◌, ◌++◌, Bool, true, false, ltb, leb, if◌then◌else◌, take, none,
  some, Str, str_eq, list_beq, ◌&&◌, replicate,
}
use icminers_stratum_v.Prelude.Dict.{Dict, lookup, insert, erase, get_or}
use icminers_stratum_v.Prelude.Floats.{Floats}
use icminers_stratum_v.Coins.Bytes.{hex_encode, Bytes, le_bytes}

pub record Session (F : Type 0) : Type 0 where
  pub id : Str
  pub pool_id : Str
  pub remote_ip : Str
  pub subscribed : Bool
  pub extra_nonce1 : Str
  pub difficulty : F
  pub prev_difficulty : F
  pub diff_changed_at : ℕ
  pub auth_workers : Dict Str Bool
  pub user_agent : Str

module _ (fl : Floats) where
  open fl use {F, of_ℕ, lt}

  unfoldable pub new_session : Str → Str → Str → Session F
  new_session id pool_id ip = record {
    id = id;
    pool_id = pool_id;
    remote_ip = ip;
    subscribed = false;
    extra_nonce1 = [];
    difficulty = of_ℕ 0;
    prev_difficulty = of_ℕ 0;
    diff_changed_at = 0;
    auth_workers = [];
    user_agent = [];
  }

  unfoldable pub subscribe : Str → Session F → Session F
  subscribe en1 s = record s { subscribed = true; extra_nonce1 = en1 }

  unfoldable pub authorize : Str → Session F → Session F
  authorize worker s = record s { auth_workers = insert worker true s.auth_workers }

  unfoldable pub is_authorized : Str → Session F → Bool
  is_authorized worker s = get_or worker false s.auth_workers

  unfoldable pub update_difficulty : ℕ → F → Session F → Session F
  update_difficulty now d s = record s {
    prev_difficulty = s.difficulty;
    diff_changed_at = now;
    difficulty = d;
  }

  -- For a while after a raise the lower difficulty still counts.
  unfoldable pub effective_difficulty : ℕ → ℕ → Session F → F
  effective_difficulty now grace s =
      if lt (of_ℕ 0) s.prev_difficulty
        && (lt s.prev_difficulty s.difficulty && ltb (now - s.diff_changed_at) grace)
      then s.prev_difficulty
      else s.difficulty

  unfoldable pub set_difficulty : F → Session F → Session F
  set_difficulty d s = record s { difficulty = d }

-- The allocator: a prefix, and a counter of 32 bits.
pub record Allocator : Type 0 where
  pub prefix : Bytes
  pub counter : ℕ

-- The prefix is cut, or padded with zeros, to leave four bytes.
unfoldable pub new_allocator : ℕ → Bytes → Allocator
new_allocator size prefix =
    let width = (if ltb size 4 then 4 else size) - 4 in
    record { prefix = take width (prefix ++ replicate width 0); counter = 0 }

unfoldable pub next : Allocator → Str × Allocator
next a =
    let n = (a.counter + 1) % 2 ^ 32 in
    (hex_encode (a.prefix ++ reverse (le_bytes 4 n)), record a { counter = n })

-- The sessions of a node by id, with the connections of each address.
pub record Sessions (F : Type 0) : Type 0 where
  pub sessions : Dict Str (Session F)
  pub per_ip : Dict Str ℕ
  pub max_conn_per_ip : ℕ

module _ {F : Type 0} where
  unfoldable pub add : Session F → Sessions F → Sessions F × Bool
  add s m =
      let n = get_or s.remote_ip 0 m.per_ip in
      if ltb 0 m.max_conn_per_ip && leb m.max_conn_per_ip n then (m, false) else (
        record m {
          sessions = insert s.id s m.sessions;
          per_ip = insert s.remote_ip (n + 1) m.per_ip;
        },
        true,
      )

  unfoldable pub remove : Session F → Sessions F → Sessions F
  remove s m =
      let n = get_or s.remote_ip 0 m.per_ip in
      elim (lookup s.id m.sessions) [
        | none ↦ m
        | some t ↦ record m {
          sessions = erase s.id m.sessions;
          per_ip =
              if leb n 1 then erase s.remote_ip m.per_ip else insert s.remote_ip (n - 1) m.per_ip;
        }
      ]

  unfoldable pub count_for_pool : Str → Dict Str (Session F) → ℕ
  count_for_pool pool [] = 0
  count_for_pool pool ((id, s) ∷ m) =
      if list_beq s.pool_id pool then count_for_pool pool m + 1 else count_for_pool pool m
