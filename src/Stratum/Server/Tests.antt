-- ===== src/Stratum/Server/Tests.antt =====
-- Connections to one port.
use icminers_stratum_v.Prelude.{
  ℕ, ◌+◌, ◌≡◌, ◌⊎◌, refl, arith, Bool, true, false, Option, none, some, List, [], ◌∷◌, codes,
  length, replicate, Str, str_eq, list_beq,
}
use icminers_stratum_v.Pool.Lifecycle.{new_manager}
use icminers_stratum_v.Pool.Service.{PoolConfig}
use icminers_stratum_v.Config.{StratumConfig, PortConfig}
use icminers_stratum_v.Stratum.Server.{
  Conn, Accepted, accept_conn, Moment, handle_conn, new_session, Stream, lookup, add,
}
use icminers_stratum_v.Prelude.Floats.{Ratio, frac, ratios}
use icminers_stratum_v.Stratum.Handler.{Handler, Request}
use icminers_stratum_v.Stratum.Session.{Sessions, new_session, new_allocator, add}
use icminers_stratum_v.Stratum.Codec.{Stream}
use icminers_stratum_v.Stratum.Server.Connection.{handle_conn-returns}
use icminers_stratum_v.Stratum.Server.Admission.{IsAdmissible, accept_conn-IsAdmissible}
use icminers_stratum_v.Prelude.Dict.{lookup, insert}
use icminers_stratum_v.Stratum.Server.LongLine.{handle_conn-long_line}
use icminers_stratum_v.Pool.State.{parse_state}
use icminers_stratum_v.Bans as Bans
use icminers_stratum_v.Pool.Service as Service

abbrev pool : Service.PoolConfig
pool = record {
  id = codes "p";
  coin_symbol = codes "C";
  enabled = true;
  initial_state = codes "active";
  maintenance_message = [];
  payment_mode = codes "prop";
}

abbrev handler : Handler Ratio ℕ
handler = record {
  lifecycle = new_manager (pool ∷ []) 0;
  current_notify = λ p. none;
  sink = none;
  error_text = λ e. [];
}

abbrev world : ℕ → Moment Ratio ℕ
world i = record { now = i; handler = handler; cancelled = false; others = λ m. m }

abbrev ban_config : Bans.Config Ratio
ban_config = record {
  enabled = true;
  invalid_percent = frac 50 1;
  check_threshold = 50;
  malformed_threshold = 5;
  failed_auth_threshold = 10;
  ban_duration = 600;
}

abbrev bans : Bans.Manager Ratio
bans = record { cfg = ban_config; banned = []; stats = [] }

abbrev ip : Str
ip = codes "10.0.0.1"

abbrev conn : Conn Ratio ℕ
conn = record {
  session = new_session ratios (codes "s") (codes "p") ip;
  alloc = new_allocator 4 [];
  bans = some bans;
  malformed_lines = 0;
  effects = [];
}

abbrev long_line : Str
long_line = replicate 4096 b'x'

abbrev get_version : Request
get_version = record {
  method = codes "client.get_version";
  strings = none;
  first_text = none;
  extensions = none;
}

-- Each line is a request for the version.
abbrev decode : Str → Option Request
decode line = some get_version

abbrev stream : List Str → Stream
stream lines = record { lines = lines; ending = none; failed = none }

abbrev answers : Option (Conn Ratio ℕ) → Option ℕ
answers none = none
answers (some c) = some (length c.effects)

two_requests :
    answers (handle_conn ratios decode 1024 world 9 0 (stream (codes "a" ∷ codes "b" ∷ [])) conn)
    ≡ some 2
unfolding handle_conn list_beq
two_requests = refl

-- A line of 1,025 to 4,095 bytes is counted once, and the next one is served.
over_the_limit :
    answers (
      handle_conn ratios decode 1024 world 9 0 (stream (replicate 1025 b'x' ∷ codes "b" ∷ [])) conn)
    ≡ some 1
unfolding handle_conn lookup list_beq
over_the_limit = refl

handle_conn-returns_example :
    (end : Conn Ratio ℕ) × (handle_conn ratios decode 1024 world 8 0
        (stream (codes "a" ∷ codes "b" ∷ []))
        conn
      ≡ some end)
handle_conn-returns_example =
    handle_conn-returns ratios decode 1024 world 8 0 (stream (codes "a" ∷ codes "b" ∷ [])) conn
      (omega arith)

handle_conn-long_line_example :
    (end : Conn Ratio ℕ) × (m' : Bans.Manager Ratio) × (last : ℕ) × (handle_conn ratios decode 1024
        world 6 0
        (stream (long_line ∷ codes "b" ∷ []))
        conn
      ≡ some end)
    × (end.bans ≡ some m')
    × (end.effects ≡ [])
    × (lookup conn.session.remote_ip m'.banned ≡ some ((world last).now + 600))
unfolding Bans.tracked lookup
handle_conn-long_line_example =
    handle_conn-long_line ratios decode 1024 world (λ i. refl) (λ i. refl) 6 0
      (stream (long_line ∷ codes "b" ∷ [])) long_line (codes "b" ∷ []) conn bans Bans.no_counters
      refl refl refl refl refl refl (omega arith) (omega arith) refl refl (omega arith)

abbrev port : PortConfig Ratio
port = record {
  port = 3333;
  pool_id = codes "p";
  var_diff = true;
  difficulty = frac 0 1;
  min_diff = frac 8 1;
  max_diff = frac 1000 1;
}

abbrev stratum_config : StratumConfig Ratio
stratum_config = record {
  bind_address = [];
  ports = port ∷ [];
  max_conn_per_ip = 1;
  read_timeout = 0;
  max_line_bytes = 1024;
  var_diff_target_interval = 10;
  var_diff_retarget_interval = 60;
  var_diff_variance_percent = frac 30 1;
}

abbrev nobody : Sessions Ratio
nobody = record { sessions = []; per_ip = []; max_conn_per_ip = 1 }

abbrev welcome_in : Option (Accepted ratios) × Option (Bans.Manager Ratio) × Sessions Ratio
welcome_in =
    accept_conn ratios stratum_config port (some bans) handler.lifecycle nobody (codes "s") ip 7

accept_conn-IsAdmissible_example :
    ((welcome_in.0 ≡ none) × (welcome_in.2 ≡ nobody))
    ⊎ ((a : Accepted ratios) × (welcome_in.0 ≡ some a)
        × IsAdmissible ratios port (some bans) handler.lifecycle nobody ip 7
        × (a.session.pool_id ≡ port.pool_id)
        × (a.session.remote_ip ≡ ip)
        × (a.session.subscribed ≡ false)
        × (a.session.auth_workers ≡ [])
        × (welcome_in.2 ≡ (add a.session nobody).0))
accept_conn-IsAdmissible_example =
    accept_conn-IsAdmissible ratios stratum_config port (some bans) handler.lifecycle nobody
      (codes "s") ip 7

abbrev is_in : Option (Accepted ratios) → Bool
is_in none = false
is_in (some a) = true

let_in : is_in welcome_in.0 ≡ true
unfolding accept_conn lookup new_manager insert list_beq parse_state
let_in = refl

-- The second connection of the address is one too many.
turned_away :
    is_in
      (accept_conn ratios stratum_config port
        (some bans)
        handler.lifecycle
        welcome_in.2
        (codes "t")
        ip
        8).0
    ≡ false
unfolding accept_conn lookup new_manager insert list_beq parse_state
turned_away = refl
