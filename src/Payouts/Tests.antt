-- ===== src/Payouts/Tests.antt =====
-- A block paid to two miners, and sweeps over their balances.
use icminers_stratum_v.Prelude.{List, [], ◌∷◌, ◌≡◌, refl, codes, ok, err, some, ◌+◌, true, false}
use icminers_stratum_v.Prelude.Floats.{frac, Ratio}
use icminers_stratum_v.Storage.Tables.{account_eq, BlockRow, Db, Account}
use icminers_stratum_v.Rewards.Calculate.{Block}
use icminers_stratum_v.Rewards.Split.{Credit}
use icminers_stratum_v.Storage.Ledger.Books.{IsBalanced, logged, is_reward, balance, outstanding}
use icminers_stratum_v.Payouts.{is_answered, Calls, Round, answered, call_failed, pass}
use icminers_stratum_v.Storage.Ledger.{credit_block_rewards, post_credits, log_fee}
use icminers_stratum_v.Rewards.Confirm.{confirmed}
use icminers_stratum_v.Storage.Ledger.Once.{credit_block_rewards-twice}
use icminers_stratum_v.Storage.Ledger.Laws.{credit_block_rewards-IsBalanced}
use icminers_stratum_v.Payouts.Books.{empty-IsBalanced, conservation, then, credited, swept, done}
use icminers_stratum_v.Payouts.Refunding.{pass_refused}

abbrev block : Block Ratio
block = record {
  id = 1;
  pool_id = codes "p";
  height = 5;
  miner = codes "bob";
  hash = codes "aa";
  reward_sats = 110;
  network_difficulty = frac 1 1;
  created = 7;
}

abbrev credits : List Credit
credits =
    record { miner = codes "bob"; amount_sats = 67 }
    ∷ record { miner = codes "ann"; amount_sats = 33 }
    ∷ []

abbrev row : BlockRow Ratio
row = record {
  block = block;
  status = confirmed;
  rewarded = false;
  confirmations = 101;
  progress = frac 1 1;
}

abbrev start : Db Ratio
start = record { blocks = row ∷ []; balances = []; changes = []; payments = []; next_id = 1 }

abbrev bob : Account
bob = (codes "p", codes "bob")

abbrev calls : Calls
calls = record { stuck = answered; begin = answered; refund = answered; mark = answered }

-- The wallet refuses.
abbrev refused_round : Round
refused_round = record {
  pool_id = codes "p";
  min_sats = 50;
  now = 9;
  batch_id = codes "b1";
  validate = λ m. some m;
  send = λ m. err call_failed;
}

unfoldable credited_db : Db Ratio
credited_db = post_credits (codes "p") credits start

unfoldable paid_db : Db Ratio
unfolding credited_db
paid_db = record (log_fee (codes "p") 10 credited_db) {
  blocks = record row { rewarded = true } ∷ [];
}

paid : credit_block_rewards start block credits 10 ≡ ok paid_db
unfolding credit_block_rewards paid_db
paid = refl

credit_block_rewards-twice_example : credit_block_rewards paid_db block [] 3 ≡ ok paid_db
credit_block_rewards-twice_example =
    credit_block_rewards-twice start paid_db block block credits [] 10 3 paid refl

conservation_example :
    logged is_reward bob (pass calls refused_round paid_db).0.0.changes
    ≡ balance bob (pass calls refused_round paid_db).0.0
      + outstanding bob (pass calls refused_round paid_db).0.0.payments
conservation_example =
    conservation start (pass calls refused_round paid_db).0.0 bob
      (then (credited block credits 10 paid) (then (swept calls refused_round) done))

paid-IsBalanced : IsBalanced paid_db
paid-IsBalanced =
    credit_block_rewards-IsBalanced start paid_db block credits 10 (empty-IsBalanced start) paid

pass_refused_example :
    (balance bob (pass calls refused_round paid_db).0.0 ≡ balance bob paid_db)
    × (outstanding bob (pass calls refused_round paid_db).0.0.payments
        ≡ outstanding bob paid_db.payments)
unfolding is_answered paid_db log_fee post_credits
pass_refused_example =
    pass_refused calls refused_round paid_db call_failed bob paid-IsBalanced refl refl refl refl
      (λ m. refl)
