-- ===== src/Stratum/Server/Admission.antt =====
-- Which connections `acceptLoop` lets in.
use icminers_stratum_v.Prelude.{
  if◌then◌else◌, ℕ, ◌≡◌, ◌⊎◌, refl, true, false, inl, inr, Option, none, some, [], Str, str_eq, ltb,
  leb, ◌&&◌, Bool-cases, Option-cases,
}
use icminers_stratum_v.Prelude.Floats.{Floats}
use icminers_stratum_v.Stratum.Server.{
  pool_is_shut, accept_conn, LifecycleManager, Session, new_session, Sessions, State,
  set_difficulty, refuses_ip, Accepted, start_difficulty, new_controller, port_controller,
}
use icminers_stratum_v.Config.{PortConfig, StratumConfig}
use icminers_stratum_v.Stratum.Session.{add, new_session, Session, set_difficulty, Sessions}
use icminers_stratum_v.Pool.Lifecycle.{LifecycleManager, get_pool_state}
use icminers_stratum_v.Pool.State.{State, same, disabled}
use icminers_stratum_v.Prelude.Dict.{get_or}
use icminers_stratum_v.Vardiff.Controller.{new_controller}
use icminers_stratum_v.Bans as Bans

module _ (fl : Floats) where
  open fl use {F}

  -- The address is not banned, the pool is there and not disabled, and there is room for the address.
  pub record IsAdmissible (port : PortConfig F) (bans : Option (Bans.Manager F))
      (lm : LifecycleManager) (sessions : Sessions F) (ip : Str) (now : ℕ) : Type 0 where
    pub not_banned : (refuses_ip fl bans ip now).1 ≡ false
    pub pool_open :
        (st : State) × (get_pool_state lm port.pool_id ≡ some st) × (same st disabled ≡ false)
    pub room :
        (ltb 0 sessions.max_conn_per_ip
          && leb sessions.max_conn_per_ip (get_or ip 0 sessions.per_ip))
        ≡ false

  open_pool :
      (lm : LifecycleManager) (pool : Str)
      → pool_is_shut fl lm pool ≡ false
      → (st : State) × (get_pool_state lm pool ≡ some st) × (same st disabled ≡ false)
  unfolding pool_is_shut
  open_pool lm pool h = elim (Option-cases (get_pool_state lm pool)) [
    | inl gone ↦ absurd (let bad = rw (gone, pool_is_shut) at h in cc)
    | inr (st, found) ↦ (st, found, rw (found, pool_is_shut) at h)
  ]

  add-room :
      (s : Session F) (m : Sessions F)
      → (add s m).1 ≡ true
      → (ltb 0 m.max_conn_per_ip && leb m.max_conn_per_ip (get_or s.remote_ip 0 m.per_ip)) ≡ false
  unfolding add
  add-room s m h =
      elim (Bool-cases
        (ltb 0 m.max_conn_per_ip && leb m.max_conn_per_ip (get_or s.remote_ip 0 m.per_ip))) [
          | inl full ↦ absurd (let bad = rw full at h in cc)
          | inr room ↦ room
        ]

  -- A connection becomes a session only if its address is not banned, the port's pool is there and not
  -- disabled, and the address is below its cap of connections; the session is then a new one of the
  -- port's pool and of that address, without a subscription or an authorized worker, and every
  -- connection that is turned away leaves the sessions as they were.
  pub accept_conn-IsAdmissible :
      (cfg : StratumConfig F) (port : PortConfig F) (bans : Option (Bans.Manager F))
      (lm : LifecycleManager) (sessions : Sessions F) (id ip : Str) (now : ℕ)
      → (((accept_conn fl cfg port bans lm sessions id ip now).0 ≡ none)
          × ((accept_conn fl cfg port bans lm sessions id ip now).2 ≡ sessions))
        ⊎ ((a : Accepted fl) × ((accept_conn fl cfg port bans lm sessions id ip now).0 ≡ some a)
            × IsAdmissible port bans lm sessions ip now
            × (a.session.pool_id ≡ port.pool_id)
            × (a.session.remote_ip ≡ ip)
            × (a.session.subscribed ≡ false)
            × (a.session.auth_workers ≡ [])
            × ((accept_conn fl cfg port bans lm sessions id ip now).2 ≡ (add a.session sessions).0))
  unfolding accept_conn new_session set_difficulty
  accept_conn-IsAdmissible cfg port bans lm sessions id ip now =
      let session =
        set_difficulty fl (start_difficulty fl port) (new_session fl id port.pool_id ip) in
      elim (Bool-cases (refuses_ip fl bans ip now).1) [
        | inl banned ↦ inl (rw banned refl, rw banned refl)
        | inr clean ↦ elim (Bool-cases (pool_is_shut fl lm port.pool_id)) [
          | inl shut ↦ inl (rw (clean, shut) refl, rw (clean, shut) refl)
          | inr opened ↦ elim (Bool-cases (add session sessions).1) [
            | inr full ↦ inl (rw (clean, opened, full) refl, rw (clean, opened, full) refl)
            | inl added ↦ inr (
              record {
                session = session;
                vardiff =
                    if port.var_diff
                    then some (new_controller fl (port_controller fl cfg port) now)
                    else none;
              },
              rw (clean, opened, added) refl,
              record {
                not_banned = clean;
                pool_open = open_pool lm port.pool_id opened;
                room = add-room session sessions added;
              },
              refl,
              refl,
              refl,
              refl,
              rw (clean, opened, added) refl,
            )
          ]
        ]
      ]
