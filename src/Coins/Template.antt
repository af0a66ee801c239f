-- ===== src/Coins/Template.antt =====
-- internal/coins/bitcoinbase/template.go. The JSON decoder is a parameter: `unmarshal` is the
-- template of a response, if it parses. An int64 field below 0, which `ParseTemplate` rejects (or,
-- for `min_time`, ignores) like 0, is 0 here.
use icminers_stratum_v.Prelude.{
  subst, sym, ap, ◌∙◌, or_fail-eq-ok, >>=-eq-ok, ℕ, List, [], ◌∷◌, Bool, true, false, ◌&&◌, ◌||◌,
  not, Option, none, some, ◌==◌, length, Str, Result, ok, ◌>>=◌, ◌>>◌, fail_if, or_fail,
  if◌then◌else◌, ◌≡◌, ◌<◌, arith,
}
use icminers_stratum_v.Coins.Bytes.{hex_decode}

pub record TemplateTx : Type 0 where
  pub tx_data : Str
  pub txid : Str
  pub hash : Str
  pub fee : ℕ
  pub weight : ℕ

pub record Template : Type 0 where
  pub version : ℕ
  pub rules : List Str
  pub previous_block_hash : Str
  pub transactions : List TemplateTx
  pub coinbase_value : ℕ
  pub target : Str
  pub min_time : ℕ
  pub cur_time : ℕ
  pub bits : Str
  pub height : ℕ
  pub default_witness_commitment : Str

pub data TemplateError : Type 0 where
  bad_json bad_height bad_prev_hash bad_bits bad_cur_time bad_coinbase_value bad_transaction :
      TemplateError

abbrev pub is_empty : Str → Bool
is_empty [] = true
is_empty (c ∷ s) = false

abbrev pub is_hex : Str → Bool
is_hex s = elim (hex_decode s) [ none ↦ false | some b ↦ true ]

-- `tx.TxID == "" && tx.Hash == ""` for some transaction.
unfoldable pub any_unnamed : List TemplateTx → Bool
any_unnamed [] = false
any_unnamed (tx ∷ txs) = (is_empty tx.txid && is_empty tx.hash) || any_unnamed txs

unfoldable pub check_template : Template → Result TemplateError Template
check_template t = do
  fail_if (t.height == 0) bad_height
  fail_if (not (length t.previous_block_hash == 64)) bad_prev_hash
  fail_if (not (is_hex t.previous_block_hash)) bad_prev_hash
  fail_if (not (length t.bits == 8)) bad_bits
  fail_if (not (is_hex t.bits)) bad_bits
  fail_if (t.cur_time == 0) bad_cur_time
  fail_if (t.coinbase_value == 0) bad_coinbase_value
  fail_if (any_unnamed t.transactions) bad_transaction
  ok t

unfoldable pub parse_template {ℓ} :
    {R : Type ℓ} → (R → Option Template) → R → Result TemplateError Template
parse_template unmarshal raw = do t ← or_fail (unmarshal raw) bad_json; check_template t

-- `TxIDs`: the txid of each transaction, or its hash where there is none.
unfoldable pub tx_ids : List TemplateTx → List Str
tx_ids [] = []
tx_ids (tx ∷ txs) = (if is_empty tx.txid then tx.hash else tx.txid) ∷ tx_ids txs

-- What every accepted template has.
pub record IsUsable (t : Template) : Type 0 where
  pub height_pos : 0 < t.height
  pub value_pos : 0 < t.coinbase_value
  pub cur_time_pos : 0 < t.cur_time
  pub prev_hash_size : length t.previous_block_hash ≡ 64
  pub prev_hash_hex : is_hex t.previous_block_hash ≡ true
  pub bits_size : length t.bits ≡ 8
  pub bits_hex : is_hex t.bits ≡ true
  pub all_named : any_unnamed t.transactions ≡ false

check_template-IsUsable :
    (t : Template) {u : Template} → check_template t ≡ ok u → (u ≡ t) × IsUsable t
unfolding check_template
check_template-IsUsable t e = ground arith

IsUsable-check_template : (t : Template) → IsUsable t → check_template t ≡ ok t
unfolding check_template
IsUsable-check_template t v = ground (
  arith, v.height_pos, v.value_pos, v.cur_time_pos, v.prev_hash_size, v.prev_hash_hex, v.bits_size,
  v.bits_hex, v.all_named,
)

-- A response is accepted as a template exactly if it parses as that template and the template is
-- usable: positive height, reward and time, a previous hash of 64 hex digits, bits of 8 hex
-- digits, and a txid or a hash for every transaction.
pub parse_template-IsUsable {ℓ} :
    {R : Type ℓ} (unmarshal : R → Option Template) (raw : R) (t : Template)
    → (parse_template unmarshal raw ≡ ok t → (unmarshal raw ≡ some t) × IsUsable t)
      × ((unmarshal raw ≡ some t) × IsUsable t → parse_template unmarshal raw ≡ ok t)
unfolding parse_template
parse_template-IsUsable unmarshal raw t = (
  λ e.
      let (u, parsed, checked) = >>=-eq-ok (or_fail (unmarshal raw) bad_json) check_template e in
      let (same, usable) = check_template-IsUsable u checked in
      (
        or_fail-eq-ok (unmarshal raw) bad_json parsed ∙ ap some (sym same),
        subst IsUsable (sym same) usable,
      ),
  λ (e, usable). rw (e, parse_template) (IsUsable-check_template t usable),
)
