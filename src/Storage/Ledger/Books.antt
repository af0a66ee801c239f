-- ===== src/Storage/Ledger/Books.antt =====
-- What the tables of the ledger promise: each account's balance is what the log of changes says, and
-- what the log says was paid out is refunded or in a payment that has not failed.
use icminers_stratum_v.Prelude.{ℕ, ◌+◌, List, [], ◌∷◌, Bool, true, false, if◌then◌else◌, ◌≡◌}
use icminers_stratum_v.Storage.Tables.{
  Account, Db, Usage, PaymentStatus, block_reward, account_eq, Change, Payment, sending, pool_fee,
  sent, payout, failed, payout_refund,
}
use icminers_stratum_v.Prelude.Dict.{get_or}
use icminers_stratum_v.Prelude.Uniq.{Uniq}

unfoldable pub is_reward : Usage → Bool
is_reward block_reward = true
is_reward pool_fee = false
is_reward payout = false
is_reward payout_refund = false

unfoldable pub is_payout : Usage → Bool
is_payout block_reward = false
is_payout pool_fee = false
is_payout payout = true
is_payout payout_refund = false

unfoldable pub is_refund : Usage → Bool
is_refund block_reward = false
is_refund pool_fee = false
is_refund payout = false
is_refund payout_refund = true

-- The amount if the accounts are the same.
abbrev pub for_account : Account → Account → ℕ → ℕ
for_account a b n = if account_eq.beq b a then n else 0

-- The sum of an account's logged changes with such a usage.
unfoldable pub logged : (Usage → Bool) → Account → List Change → ℕ
logged counts a [] = 0
logged counts a (c ∷ cs) =
    (if counts c.usage then for_account a c.account c.amount_sats else 0) + logged counts a cs

-- The sum of an account's payments.
unfoldable pub owed : Account → List Payment → ℕ
owed a [] = 0
owed a (p ∷ ps) = for_account a p.account p.amount_sats + owed a ps

unfoldable pub has_failed : PaymentStatus → Bool
has_failed sending = false
has_failed sent = false
has_failed failed = true

-- The sum of an account's payments that have not failed.
unfoldable pub outstanding : Account → List Payment → ℕ
outstanding a [] = 0
outstanding a (p ∷ ps) =
    (if has_failed p.status then 0 else for_account a p.account p.amount_sats) + outstanding a ps

abbrev pub balance : {F : Type 0} → Account → Db F → ℕ
balance a db = get_or a 0 db.balances

-- One account's books.
unfoldable pub BooksOf : {F : Type 0} → Account → Db F → Type 0
unfolding logged outstanding
BooksOf a db =
    (balance a db + logged is_payout a db.changes
      ≡ logged is_reward a db.changes + logged is_refund a db.changes)
    × (logged is_payout a db.changes ≡ logged is_refund a db.changes + outstanding a db.payments)

unfoldable pub IsBalanced : {F : Type 0} → Db F → Type 0
unfolding BooksOf
IsBalanced db = Uniq db.balances × ((a : Account) → BooksOf a db)
