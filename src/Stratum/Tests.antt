-- ===== src/Stratum/Tests.antt =====
-- A request to a handler.
use icminers_stratum_v.Prelude.{
  ℕ, [], ◌∷◌, ◌≡◌, refl, codes, true, some, none, err, length, list_beq,
}
use icminers_stratum_v.Prelude.Floats.{ratios, Ratio}
use icminers_stratum_v.Stratum.Handler.{Request, Handler, handle}
use icminers_stratum_v.Pool.Service.{PoolConfig}
use icminers_stratum_v.Stratum.Gate.{shares_in, IsGated, handle-IsGated}
use icminers_stratum_v.Stratum.Session.{
  Session, Allocator, authorize, new_allocator, subscribe, new_session,
}
use icminers_stratum_v.Pool.Lifecycle.{new_manager, get_pool_state}
use icminers_stratum_v.Jobs.Submit.{job_not_found}
use icminers_stratum_v.Prelude.Dict.{lookup, insert}
use icminers_stratum_v.Pool.State.{parse_state}

abbrev config : PoolConfig
config = record {
  id = codes "p";
  coin_symbol = codes "C";
  enabled = true;
  initial_state = codes "active";
  maintenance_message = [];
  payment_mode = codes "prop";
}

abbrev handler : Handler Ratio ℕ
handler = record {
  lifecycle = new_manager (config ∷ []) 0;
  current_notify = λ pool. some 7;
  sink = some (λ pool share. err job_not_found);
  error_text = λ e. codes "no";
}

abbrev member : Session Ratio
member = authorize ratios (codes "bob") (
    subscribe ratios (codes "00000001")
      (new_session ratios (codes "s") (codes "p") (codes "10.0.0.1")))

abbrev submit_request : Request
submit_request = record {
  method = codes "mining.submit";
  strings = some (codes " bob" ∷ codes "1" ∷ codes "00" ∷ codes "00" ∷ codes "00" ∷ []);
  first_text = none;
  extensions = none;
}

abbrev alloc : Allocator
alloc = new_allocator 4 []

handle-IsGated_example :
    IsGated ratios handler member (handle ratios handler 5 alloc member submit_request).0.1
handle-IsGated_example = handle-IsGated ratios handler 5 alloc member submit_request

-- The share of this request reaches the sink.
one_share : length (shares_in (handle ratios handler 5 alloc member submit_request).0.1) ≡ 1
unfolding shares_in handle list_beq lookup insert new_session get_pool_state new_manager parse_state
one_share = refl
