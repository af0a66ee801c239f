-- ===== src/Stratum/Handler.antt =====
-- internal/stratum/handler.go: what each request does to the session, and what it sends out. The
-- jobs, the share sink and the clock are arguments; every write goes through.
use icminers_stratum_v.Prelude.{
  ℕ, List, [], ◌∷◌, ◌++◌, Bool, true, false, not, ltb, leb, if◌then◌else◌, length, Option, none,
  some, Str, str_eq, list_beq, codes, Result, ok, err, any, get_elem?,
}
use icminers_stratum_v.Prelude.Dict.{lookup}
use icminers_stratum_v.Prelude.Floats.{Floats}
use icminers_stratum_v.Prelude.Text.{trim}
use icminers_stratum_v.Pool.Lifecycle.{LifecycleManager, get_pool_state}
use icminers_stratum_v.Pool.State.{
  State, accepts_shares, active, draining, maintenance, paused, disabled, error,
  accepts_new_authorization,
}
use icminers_stratum_v.Jobs.Submit.{
  SubmitError, job_not_found, duplicate_share, low_difficulty, invalid,
}
use icminers_stratum_v.Adapter.{ShareSubmit, ShareResult}
use icminers_stratum_v.Stratum.Session.{
  Session, Allocator, next, subscribe, authorize, effective_difficulty, is_authorized,
}

-- A request, with what the JSON decoder makes of its parameters: the list of strings, the first one
-- as a string, and the list of extensions.
pub record Request : Type 0 where
  pub method : Str
  pub strings : Option (List Str)
  pub first_text : Option Str
  pub extensions : Option (List Str)

-- The numbers of the errors.
abbrev pub err_other : ℕ
err_other = 20

abbrev pub err_job_not_found : ℕ
err_job_not_found = 21

abbrev pub err_duplicate_share : ℕ
err_duplicate_share = 22

abbrev pub err_low_difficulty : ℕ
err_low_difficulty = 23

abbrev pub err_unauthorized : ℕ
err_unauthorized = 24

abbrev pub err_not_subscribed : ℕ
err_not_subscribed = 25

pub data Reply : Type 0 where
  subscribed_as : Str → Str → ℕ → Reply
  accepted server_version : Reply
  version_rolling : Bool → Reply
  refused : ℕ → Str → Reply

-- What leaves the handler, in order; `N` are the parameters of a job's announcement.
pub data Effect (F N : Type 0) : Type 0 where
  respond : Reply → Effect F N
  announce_difficulty : F → Effect F N
  announce_job : N → Effect F N
  submitted : Str → ShareSubmit F → Effect F N
  reported : Str → Bool → Effect F N
  counted_by_vardiff : Effect F N

unfoldable pub maintenance_message : LifecycleManager → Str → Str
maintenance_message m pool = elim (lookup pool m.pools) [
  | none ↦ []
  | some s ↦ s.maintenance_message
]

abbrev about : Str → Str → Str
about pool text = codes "Pool " ++ (pool ++ text)

unfoldable pub reject_message : LifecycleManager → Str → State → Str
unfolding maintenance_message
reject_message m pool maintenance = maintenance_message m pool
reject_message m pool paused = about pool (codes " is temporarily paused. Please reconnect later.")
reject_message m pool disabled = about pool (codes " is disabled.")
reject_message m pool draining = about pool (codes " is draining and not accepting new workers.")
reject_message m pool error = about pool (codes " is temporarily unavailable.")
reject_message m pool active = about pool (codes " is not accepting connections.")

unfoldable pub error_code : SubmitError → ℕ
error_code job_not_found = err_job_not_found
error_code duplicate_share = err_duplicate_share
error_code low_difficulty = err_low_difficulty
error_code (invalid e) = err_other

abbrev pub nth : ℕ → List Str → Str
nth i ps = elim (get_elem? ps i) [ none ↦ [] | some s ↦ s ]

-- `diffGraceWindow`, in milliseconds.
abbrev pub diff_grace_window : ℕ
diff_grace_window = 8000

-- The handler: the pools, the jobs, the sink if there is one, and the texts of its errors.
pub record Handler (F N : Type 0) : Type 0 where
  pub lifecycle : LifecycleManager
  pub current_notify : Str → Option N
  pub sink : Option (Str → ShareSubmit F → Result SubmitError (ShareResult F))
  pub error_text : SubmitError → Str

module _ (fl : Floats) where
  open fl use {F}

  unfoldable pub share_of : ℕ → Session F → Str → List Str → ShareSubmit F
  unfolding effective_difficulty
  share_of now s worker ps = record {
    worker = worker;
    job_id = nth 1 ps;
    extra_nonce2 = nth 2 ps;
    n_time = nth 3 ps;
    nonce = nth 4 ps;
    version_bits = nth 5 ps;
    extra_nonce1 = s.extra_nonce1;
    worker_diff = effective_difficulty fl now diff_grace_window s;
    user_agent = s.user_agent;
    remote_ip = s.remote_ip;
  }

module _ (fl : Floats) {N : Type 0} where
  open fl use {F}

  abbrev refuse : Session F → ℕ → Str → Session F × List (Effect F N)
  refuse s code text = (s, respond (refused code text) ∷ [])

  unfoldable pub handle_subscribe :
      Allocator → Session F → Request → (Session F × List (Effect F N)) × Allocator
  unfolding next subscribe
  handle_subscribe alloc s req =
      let named = record s {
        user_agent = elim req.first_text [ none ↦ s.user_agent | some ua ↦ ua ];
      } in
      let fresh = next alloc in
      ((subscribe fl fresh.0 named, respond (subscribed_as s.id fresh.0 4) ∷ []), fresh.1)

  -- What a worker that is let in is told.
  unfoldable pub welcome : Handler F N → Session F → List (Effect F N)
  welcome h s =
      respond accepted
      ∷ announce_difficulty s.difficulty
      ∷ elim (h.current_notify s.pool_id) [ none ↦ [] | some n ↦ announce_job n ∷ [] ]

  unfoldable pub admit : Handler F N → Session F → Str → Session F × List (Effect F N)
  unfolding authorize welcome reject_message
  admit h s worker = elim (get_pool_state h.lifecycle s.pool_id) [
    | none ↦ refuse s err_other (codes "unknown pool")
    | some st ↦
        if accepts_new_authorization st
        then (authorize fl worker s, welcome h (authorize fl worker s))
        else refuse s err_unauthorized (reject_message h.lifecycle s.pool_id st)
  ]

  unfoldable pub handle_authorize :
      Handler F N → Session F → Option (List Str) → Session F × List (Effect F N)
  unfolding admit trim
  handle_authorize h s none =
      if not s.subscribed
      then refuse s err_not_subscribed (codes "not subscribed")
      else refuse s err_other (codes "invalid authorize params")
  handle_authorize h s (some ps) =
      let worker = trim (nth 0 ps) in
      if not s.subscribed
      then refuse s err_not_subscribed (codes "not subscribed")
      else if ltb (length ps) 1
      then refuse s err_other (codes "invalid authorize params")
      else if leb (length worker) 0
      then refuse s err_unauthorized (codes "empty worker")
      else admit h s worker

  unfoldable pub handle_configure : Session F → Request → Session F × List (Effect F N)
  handle_configure s req = elim req.extensions [
    | none ↦ (s, respond (version_rolling false) ∷ [])
    | some es ↦ (s, respond (version_rolling (any (list_beq (codes "version-rolling")) es)) ∷ [])
  ]

  -- The answer to a share, and what the ban manager and the difficulty controller learn.
  unfoldable pub conclude :
      Handler F N → Session F → Result SubmitError (ShareResult F) → List (Effect F N)
  unfolding error_code
  conclude h s (err e) =
      reported s.remote_ip false ∷ respond (refused (error_code e) (h.error_text e)) ∷ []
  conclude h s (ok r) = reported s.remote_ip true ∷ counted_by_vardiff ∷ respond accepted ∷ []

  unfoldable pub submit :
      Handler F N → ℕ → Session F → Str → List Str → Session F × List (Effect F N)
  unfolding share_of conclude
  submit h now s worker ps = elim h.sink [
    | none ↦ refuse s err_job_not_found (codes "no job source wired for this pool")
    | some take_share ↦
        let share = share_of fl now s worker ps in
        (s, submitted s.pool_id share ∷ conclude h s (take_share s.pool_id share))
  ]

  -- The pool's state decides.
  unfoldable pub submit_if_open :
      Handler F N → ℕ → Session F → Str → List Str → Session F × List (Effect F N)
  unfolding submit reject_message
  submit_if_open h now s worker ps = elim (get_pool_state h.lifecycle s.pool_id) [
    | none ↦ refuse s err_other (codes "unknown pool")
    | some st ↦
        if not (accepts_shares st)
        then refuse s err_other (reject_message h.lifecycle s.pool_id st)
        else submit h now s worker ps
  ]

  unfoldable pub handle_submit :
      Handler F N → ℕ → Session F → Option (List Str) → Session F × List (Effect F N)
  unfolding submit_if_open trim is_authorized
  handle_submit h now s none =
      if not s.subscribed
      then refuse s err_not_subscribed (codes "not subscribed")
      else refuse s err_other (codes "invalid submit params")
  handle_submit h now s (some ps) =
      let worker = trim (nth 0 ps) in
      if not s.subscribed
      then refuse s err_not_subscribed (codes "not subscribed")
      else if ltb (length ps) 5
      then refuse s err_other (codes "invalid submit params")
      else if not (is_authorized fl worker s)
      then refuse s err_unauthorized (codes "worker not authorized")
      else submit_if_open h now s worker ps

  unfoldable pub handle :
      Handler F N
      → ℕ
      → Allocator
      → Session F
      → Request
      → (Session F × List (Effect F N)) × Allocator
  unfolding handle_subscribe handle_authorize handle_configure handle_submit
  handle h now alloc s req =
      if list_beq req.method (codes "mining.subscribe")
      then handle_subscribe alloc s req
      else if list_beq req.method (codes "mining.authorize")
      then (handle_authorize h s req.strings, alloc)
      else if list_beq req.method (codes "mining.configure")
      then (handle_configure s req, alloc)
      else if list_beq req.method (codes "client.get_version")
      then ((s, respond server_version ∷ []), alloc)
      else if list_beq req.method (codes "mining.submit")
      then (handle_submit h now s req.strings, alloc)
      else (refuse s err_other (codes "unknown method " ++ req.method), alloc)
