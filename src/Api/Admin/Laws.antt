-- ===== src/Api/Admin/Laws.antt =====
-- The guard of the admin routes, their isolation, and what the cluster makes of an action.
use icminers_stratum_v.Prelude.{
  ℕ, ◌≡◌, ◌≢◌, ◌⊎◌, refl, arith, [], ◌++◌, Bool, true, false, not, if◌then◌else◌, Option, some, Str,
  str_eq, inl, inr, codes, list_beq, list_beq_iff,
}
use icminers_stratum_v.Coins.Template.{is_empty}
use icminers_stratum_v.Messaging.{command_of, apply_command}
use icminers_stratum_v.Api.Admin.{
  admin_action, admin_request, Done, AdminActionKind, local_command, AdminRequestBody, trim,
  cluster_command, action_pause, action_resume, action_drain, action_maintenance, action_restart,
  action_disable, only_answer, no_route, unauthorized,
}
use icminers_stratum_v.Pool.Lifecycle.{LifecycleManager}
use icminers_stratum_v.Prelude.Text.{trim}
use icminers_stratum_v.Prelude.Dict.{lookup}
use icminers_stratum_v.Pool.Isolation.{apply-isolated}

-- The caller showed the token, and there is one.
abbrev pub IsAuthorized : Str → Str → Type 0
IsAuthorized token authorization =
    (is_empty token ≡ false) × (authorization ≡ codes "Bearer " ++ token)

-- Nothing has been done.
abbrev pub IsUntouched : LifecycleManager → Done → Type 0
IsUntouched lm done = (done.lifecycle ≡ lm) × (done.published ≡ []) × (done.changes ≡ [])

admin_action-isolated :
    (origin : Str) (broker : Option Bool) (lm : LifecycleManager) (kind : AdminActionKind)
    (id : Str) (body : AdminRequestBody) (now : ℕ) (other : Str)
    → id ≢ other
    → lookup other (admin_action origin broker lm kind id body now).lifecycle.pools
      ≡ lookup other lm.pools
unfolding admin_action
admin_action-isolated origin broker lm kind id body now other d =
    (apply-isolated lm id (local_command kind body) now).0 other d

abbrev IsGuarded : Str → Str → LifecycleManager → Str → Done → Type 0
IsGuarded token authorization lm id done =
    ((other : Str) → id ≢ other → lookup other done.lifecycle.pools ≡ lookup other lm.pools)
    × (IsAuthorized token authorization ⊎ IsUntouched lm done)

-- Both branches of a guard, each with what the test says.
either {ℓ} :
    (P : Done → Type ℓ) (b : Bool) (x y : Done)
    → (b ≡ true → P x)
    → (b ≡ false → P y)
    → P (if b then x else y)
either P true x y f g = f refl
either P false x y f g = g refl

-- A request to an admin route leaves every pool but the one that it names as it was; and unless a
-- token is configured and shown, it leaves all of them, and sends nothing to the cluster.
pub admin_request-guarded :
    (token authorization origin : Str) (broker : Option Bool) (lm : LifecycleManager)
    (kind : AdminActionKind) (id : Str) (body : AdminRequestBody) (now : ℕ)
    → ((other : Str)
        → id ≢ other
        → lookup other
            (admin_request token authorization origin broker lm kind id body now).lifecycle.pools
          ≡ lookup other lm.pools)
      × (IsAuthorized token authorization
          ⊎ IsUntouched lm (admin_request token authorization origin broker lm kind id body now))
unfolding admin_request
admin_request-guarded token authorization origin broker lm kind id body now =
    let wanted = codes "Bearer " ++ token in
    let done = admin_action origin broker lm kind id body now in
    either (IsGuarded token authorization lm id) (is_empty token) (only_answer lm no_route)
      (if not (list_beq authorization wanted) then only_answer lm unauthorized else done)
      (λ off. (λ other d. refl, inr (refl, refl, refl)))
      (λ on.
        either (IsGuarded token authorization lm id) (not (list_beq authorization wanted))
          (only_answer lm unauthorized) done (λ wrong. (λ other d. refl, inr (refl, refl, refl)))
          (λ shown. (
            λ other d. admin_action-isolated origin broker lm kind id body now other d,
            inl (on, (list_beq_iff authorization wanted).0 (ground (arith, shown))),
          )))

-- The regions read the command that the admin route means.
command_of-cluster_command :
    (origin id : Str) (kind : AdminActionKind) (body : AdminRequestBody)
    → trim body.message ≡ body.message
    → command_of (cluster_command origin id kind body) ≡ some (local_command kind body)
unfolding command_of local_command list_beq
command_of-cluster_command origin id action_pause body h = refl
command_of-cluster_command origin id action_resume body h = refl
command_of-cluster_command origin id action_drain body h = refl
command_of-cluster_command origin id action_maintenance body h = rw h refl
command_of-cluster_command origin id action_restart body h = refl
command_of-cluster_command origin id action_disable body h = refl

-- On every node: applying the command that an admin action sends to the cluster does to the pools, and
-- reports of state changes, what the action itself does there, provided that the message has no white
-- space around it.
pub apply_command-cluster_command :
    (origin : Str) (broker : Option Bool) (lm : LifecycleManager) (kind : AdminActionKind)
    (id : Str) (body : AdminRequestBody) (now : ℕ)
    → trim body.message ≡ body.message
    → ((apply_command lm (cluster_command origin id kind body) now).0
        ≡ (admin_action origin broker lm kind id body now).lifecycle)
      × ((apply_command lm (cluster_command origin id kind body) now).2
          ≡ (admin_action origin broker lm kind id body now).changes)
unfolding apply_command admin_action
apply_command-cluster_command origin broker lm kind id body now h =
    let same = command_of-cluster_command origin id kind body h in
    (rw (same, apply_command) refl, rw (same, apply_command) refl)
