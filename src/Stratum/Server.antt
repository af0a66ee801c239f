-- ===== src/Stratum/Server.antt =====
-- internal/stratum/server.go: what an accepted connection becomes, the loop that serves it, the
-- announcement of a job, and the round of the difficulty loop. A moment is what the loop finds each
-- time it comes round: the clock, the pools and jobs of the handler, whether the server is shutting
-- down, and what the other connections have done to the ban manager since.
pub mod Admission
pub mod Connection
pub mod LongLine
mod Tests
use icminers_stratum_v.Prelude.{
  ℕ, zero, suc, ◌+◌, List, [], ◌∷◌, ◌++◌, Bool, true, false, not, ltb, leb, ◌&&◌, if◌then◌else◌,
  Option, none, some, Str, str_eq, list_beq,
}
use icminers_stratum_v.Prelude.Dict.{Dict, lookup}
use icminers_stratum_v.Prelude.Floats.{Floats}
use icminers_stratum_v.Config.{PortConfig, StratumConfig}
use icminers_stratum_v.Bans.{is_banned, record_malformed, record_share}
use icminers_stratum_v.Pool.State.{State, same, disabled}
use icminers_stratum_v.Pool.Lifecycle.{LifecycleManager, get_pool_state}
use icminers_stratum_v.Vardiff.Controller.{Controller, ControllerConfig, new_controller, retarget}
use icminers_stratum_v.Stratum.Session.{
  Session, Sessions, Allocator, new_session, set_difficulty, update_difficulty, add, remove,
}
use icminers_stratum_v.Stratum.Handler.{
  Request, Handler, Effect, handle, reported, respond, announce_difficulty, announce_job, submitted,
  counted_by_vardiff,
}
use icminers_stratum_v.Stratum.Codec.{
  Stream, ReadResult, received, blank, line_too_long, malformed, transport, eof, read,
}
use icminers_stratum_v.Bans as Bans

abbrev pub max_malformed_per_conn : ℕ
max_malformed_per_conn = 5

module _ (fl : Floats) where
  open fl use {F, of_ℕ, le}

  -- A nil ban manager bans nobody.
  unfoldable pub refuses_ip : Option (Bans.Manager F) → Str → ℕ → Option (Bans.Manager F) × Bool
  unfolding is_banned
  refuses_ip none ip now = (none, false)
  refuses_ip (some m) ip now = let (m', banned) = is_banned fl m ip now in (some m', banned)

  unfoldable pub pool_is_shut : LifecycleManager → Str → Bool
  unfolding get_pool_state
  pool_is_shut lm pool = elim (get_pool_state lm pool) [ none ↦ true | some st ↦ same st disabled ]

  abbrev pub start_difficulty : PortConfig F → F
  start_difficulty port =
      if port.var_diff && le port.difficulty (of_ℕ 0) then port.min_diff else port.difficulty

  abbrev pub port_controller : StratumConfig F → PortConfig F → ControllerConfig F
  port_controller cfg port = record {
    min_diff = port.min_diff;
    max_diff = port.max_diff;
    target_interval = cfg.var_diff_target_interval;
    retarget_interval = cfg.var_diff_retarget_interval;
    variance_percent = cfg.var_diff_variance_percent;
    max_adjust_factor = of_ℕ 0;
  }

  -- A connection that is let in: its session, with a controller on ports with variable difficulty.
  pub record Accepted : Type 0 where
    pub session : Session F
    pub vardiff : Option (Controller F)

  -- One round of `acceptLoop`, with the ban manager and the sessions that it leaves.
  unfoldable pub accept_conn :
      StratumConfig F
      → PortConfig F
      → Option (Bans.Manager F)
      → LifecycleManager
      → Sessions F
      → Str
      → Str
      → ℕ
      → Option Accepted × Option (Bans.Manager F) × Sessions F
  unfolding refuses_ip pool_is_shut new_session set_difficulty add new_controller
  accept_conn cfg port bans lm sessions id ip now =
      let (bans', banned) = refuses_ip bans ip now in
      let session = set_difficulty fl (start_difficulty port) (new_session fl id port.pool_id ip) in
      let (sessions', added) = add session sessions in
      let vardiff =
        if port.var_diff then some (new_controller fl (port_controller cfg port) now) else none in
      if banned
      then (none, bans', sessions)
      else if pool_is_shut lm port.pool_id
      then (none, bans', sessions)
      else if not added
      then (none, bans', sessions)
      else (some (record { session = session; vardiff = vardiff }), bans', sessions')

-- The loop of a connection.
pub record Moment (F N : Type 0) : Type 0 where
  pub now : ℕ
  pub handler : Handler F N
  pub cancelled : Bool
  pub others : Bans.Manager F → Bans.Manager F

pub record Conn (F N : Type 0) : Type 0 where
  pub session : Session F
  pub alloc : Allocator
  pub bans : Option (Bans.Manager F)
  pub malformed_lines : ℕ
  pub effects : List (Effect F N)

module _ {F : Type 0} where
  abbrev pub on_manager :
      (Bans.Manager F → Bans.Manager F) → Option (Bans.Manager F) → Option (Bans.Manager F)
  on_manager f none = none
  on_manager f (some m) = some (f m)

module _ (fl : Floats) where
  open fl use {F}

  unfoldable pub count_malformed :
      Option (Bans.Manager F) → Str → ℕ → Option (Bans.Manager F) × Bool
  unfolding record_malformed
  count_malformed none ip now = (none, false)
  count_malformed (some m) ip now =
      let (m', banned) = record_malformed fl m ip now in (some m', banned)

module _ (fl : Floats) {N : Type 0} where
  open fl use {F}

  -- What the handler reports of shares, in order.
  unfoldable pub report_shares : ℕ → List (Effect F N) → Bans.Manager F → Bans.Manager F
  unfolding record_share
  report_shares now [] m = m
  report_shares now (reported ip valid ∷ es) m =
      report_shares now es (record_share fl m ip valid now)
  report_shares now (respond r ∷ es) m = report_shares now es m
  report_shares now (announce_difficulty d ∷ es) m = report_shares now es m
  report_shares now (announce_job n ∷ es) m = report_shares now es m
  report_shares now (submitted pool share ∷ es) m = report_shares now es m
  report_shares now (counted_by_vardiff ∷ es) m = report_shares now es m

  -- A line that is too long or no JSON; the connection goes on if the answer is true.
  unfoldable pub on_malformed : ℕ → Conn F N → Conn F N × Bool
  unfolding count_malformed
  on_malformed now c =
      let lines = c.malformed_lines + 1 in
      let (bans', banned) = count_malformed fl c.bans c.session.remote_ip now in
      (
        record c { malformed_lines = lines; bans = bans' },
        not banned && not (leb max_malformed_per_conn lines),
      )

  unfoldable pub on_request : Moment F N → Conn F N → Request → Conn F N
  unfolding handle report_shares
  on_request moment c req =
      let ((session, es), alloc) = handle fl moment.handler moment.now c.alloc c.session req in
      record c {
        session = session;
        alloc = alloc;
        bans = on_manager (report_shares moment.now es) c.bans;
        effects = c.effects ++ es;
      }

  unfoldable pub on_read : Moment F N → Conn F N → ReadResult → Conn F N × Bool
  unfolding on_malformed on_request
  on_read moment c eof = (c, false)
  on_read moment c transport = (c, false)
  on_read moment c line_too_long = on_malformed moment.now c
  on_read moment c malformed = on_malformed moment.now c
  on_read moment c blank = (c, true)
  on_read moment c (received req) = (on_request moment c req, true)

  module _ (decode : Str → Option Request) (max_line : ℕ) (world : ℕ → Moment F N) where
    -- `handleConn` from its given round on; `none` if the fuel runs out.
    unfoldable pub handle_conn : ℕ → ℕ → Stream → Conn F N → Option (Conn F N)
    unfolding on_read read
    handle_conn zero round s c = none
    handle_conn (suc fuel) round s c =
        let moment = world round in
        let here = record c { bans = on_manager moment.others c.bans } in
        let (s', r) = read decode max_line s in
        let (c', goes_on) = on_read moment here r in
        let rest = handle_conn fuel (round + 1) s' c' in
        if moment.cancelled then some here else if goes_on then rest else some c'

-- The sessions that `BroadcastNotify` writes to.
module _ {F : Type 0} where
  unfoldable pub broadcast_notify : Str → Dict Str (Session F) → List Str
  broadcast_notify pool [] = []
  broadcast_notify pool ((id, s) ∷ sessions) =
      let rest = broadcast_notify pool sessions in
      if list_beq s.pool_id pool && s.subscribed then id ∷ rest else rest

module _ (fl : Floats) where
  open fl use {F}

  -- One session's turn in `runVardiffLoop`, and the difficulty that is announced.
  unfoldable pub retarget_session :
      ℕ → Session F → Option (Controller F) → Session F × Option (Controller F) × Option F
  unfolding retarget update_difficulty
  retarget_session now s none = (s, none, none)
  retarget_session now s (some ctrl) =
      let (ctrl', (diff, changed)) = retarget fl ctrl now s.difficulty in
      if changed
      then (update_difficulty fl now diff s, some ctrl', some diff)
      else (s, some ctrl', none)
