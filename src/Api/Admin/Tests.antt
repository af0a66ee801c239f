-- ===== src/Api/Admin/Tests.antt =====
-- Admin actions on one pool.
use icminers_stratum_v.Prelude.{
  ◌≡◌, ◌≢◌, ◌⊎◌, refl, [], ◌∷◌, true, some, Str, str_eq, codes, list_beq,
}
use icminers_stratum_v.Prelude.Text.{trim}
use icminers_stratum_v.Prelude.Dict.{lookup, insert}
use icminers_stratum_v.Api.Admin.{
  AdminRequestBody, pool_state, Done, admin_request, maintenance, cluster_command, admin_action,
  action_maintenance, default_message,
}
use icminers_stratum_v.Pool.Lifecycle.{LifecycleManager, new_manager}
use icminers_stratum_v.Messaging.{apply_command, default_message}
use icminers_stratum_v.Pool.State.{maintenance, parse_state}
use icminers_stratum_v.Api.Admin.Laws.{
  IsAuthorized, IsUntouched, admin_request-guarded, apply_command-cluster_command,
}
use icminers_stratum_v.Stratum.Handler.{maintenance_message}
use icminers_stratum_v.Pool.Service as Service

abbrev pool : Service.PoolConfig
pool = record {
  id = codes "p";
  coin_symbol = codes "C";
  enabled = true;
  initial_state = codes "active";
  maintenance_message = [];
  payment_mode = codes "prop";
}

abbrev pools : LifecycleManager
pools = new_manager (pool ∷ record pool { id = codes "q" } ∷ []) 0

abbrev body : AdminRequestBody
body = record { grace_period_seconds = 0; message = codes "back soon" }

abbrev blank_body : AdminRequestBody
blank_body = record { grace_period_seconds = 0; message = codes "  " }

abbrev request : Done
request =
    admin_request (codes "secret") (codes "Bearer secret") (codes "n1") (some true) pools
      action_maintenance (codes "p") body 9

paused_for_work : request.response ≡ pool_state (codes "p") maintenance (some (codes "back soon"))
unfolding admin_request list_beq lookup new_manager insert parse_state
paused_for_work = refl

admin_request-guarded_example :
    ((other : Str)
      → codes "p" ≢ other
      → lookup other request.lifecycle.pools ≡ lookup other pools.pools)
    × (IsAuthorized (codes "secret") (codes "Bearer secret") ⊎ IsUntouched pools request)
admin_request-guarded_example =
    admin_request-guarded (codes "secret") (codes "Bearer secret") (codes "n1") (some true) pools
      action_maintenance (codes "p") body 9

trimmed : trim body.message ≡ body.message
unfolding trim
trimmed = refl

apply_command-cluster_command_example :
    ((apply_command pools (cluster_command (codes "n1") (codes "p") action_maintenance body) 9).0
      ≡ (admin_action
          (codes "n1")
          (some true)
          pools
          action_maintenance
          (codes "p")
          body
          9).lifecycle)
    × ((apply_command pools (cluster_command (codes "n1") (codes "p") action_maintenance body) 9).2
        ≡ (admin_action
            (codes "n1")
            (some true)
            pools
            action_maintenance
            (codes "p")
            body
            9).changes)
apply_command-cluster_command_example =
    apply_command-cluster_command (codes "n1") (some true) pools action_maintenance (codes "p") body
      9 trimmed

-- A blank message is the default one here and stays blank in the regions.
blank_message :
    (maintenance_message
        (admin_action
          (codes "n1")
          (some true)
          pools
          action_maintenance
          (codes "p")
          blank_body
          9).lifecycle
        (codes "p")
      ≡ default_message)
    × (maintenance_message
          (apply_command pools
            (cluster_command (codes "n1") (codes "p") action_maintenance blank_body)
            9).0
          (codes "p")
        ≡ codes "  ")
unfolding maintenance_message lookup admin_action new_manager insert list_beq parse_state
    apply_command
blank_message = (refl, refl)
