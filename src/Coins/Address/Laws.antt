-- ===== src/Coins/Address/Laws.antt =====
-- What the scripts of payout addresses look like, and which addresses of wallets are read.
use icminers_stratum_v.Prelude.{
  if◌then◌else◌, fail_if, Result, ok, ℕ, ◌+◌, ◌≤◌, ◌≡◌, ◌⊎◌, refl, arith, List, [], ◌∷◌, ◌++◌, Bool,
  true, false, ◌&&◌, ◌||◌, not, inl, inr, ◌>>=◌, ltb, >>=-eq-ok, Str, length, Bool-cases, ◌==◌,
  map_err, map_err-eq-ok,
}
use icminers_stratum_v.Coins.Bytes.{Bytes}
use icminers_stratum_v.Coins.Bech32.{
  segwit_to_script, check_program, program_script, convert_bits, bech32_decode, bech32m,
}
use icminers_stratum_v.Coins.Address.{
  AddressParams, length, p2pkh_script, Str, base58_to_script, address_to_script, p2sh_script,
  version_script, map_err, is_empty, base58, has_prefix, trim, base58_check_decode, to_lower,
  bech32,
}
use icminers_stratum_v.Coins.Template.{is_empty}
use icminers_stratum_v.Prelude.Text.{trim, has_prefix, to_lower}
use icminers_stratum_v.Coins.Base58.{base58_check_decode}

-- The script of a witness program, with the rules for its version and length.
pub record IsWitness (script : Bytes) : Type 0 where
  pub version : ℕ
  pub program : Bytes
  pub known : version ≤ 16
  pub long : 2 ≤ length program
  pub short : length program ≤ 40
  pub first_kind : version ≡ 0 → (length program ≡ 20) ⊎ (length program ≡ 32)
  pub layout :
      script ≡ ((if ltb 0 version then 0x50 + version else 0x00) ∷ length program ∷ program)

-- A script that pays to a hash of 20 bytes.
pub record IsHashScript (form : Bytes → Bytes) (script : Bytes) : Type 0 where
  pub payload : Bytes
  pub size : length payload ≡ 20
  pub layout : script ≡ form payload

abbrev pub IsHashed : Bytes → Type 0
IsHashed script = IsHashScript p2pkh_script script ⊎ IsHashScript p2sh_script script

abbrev pub IsStandard : Bytes → Type 0
IsStandard script = IsHashed script ⊎ IsWitness script

fail_if-false :
    {E : Type 0} (b : Bool) (e : E) {A : Type 0} (k : Result E A) {a : A}
    → (fail_if b e >>= λ _. k) ≡ ok a
    → (b ≡ false) × (k ≡ ok a)
fail_if-false true e k h = absurd (cc)
fail_if-false false e k h = (refl, h)

check_program-IsWitness :
    (version : ℕ) (program : Bytes) (konst : ℕ) {script : Bytes}
    → check_program version program konst ≡ ok script
    → IsWitness script
unfolding check_program
check_program-IsWitness version program konst h =
    let (known, h1) = fail_if-false (ltb 16 version) _ _ h in
    let (size, h2) = fail_if-false (ltb (length program) 2 || ltb 40 (length program)) _ _ h1 in
    let (v0, h3) =
      fail_if-false (version == 0 && (not (length program == 20) && not (length program == 32))) _ _
        h2 in
    let (c0, h4) = fail_if-false (version == 0 && not (konst == 1)) _ _ h3 in
    let (c1, h5) = fail_if-false (not (version == 0) && not (konst == bech32m)) _ _ h4 in
    record {
      version = version;
      program = program;
      known = ground (arith, known);
      long = ground (arith, size);
      short = ground (arith, size);
      first_kind = λ z. ground (arith, v0, z);
      layout = cc;
    }

program_script-IsWitness :
    (values : List ℕ) (konst : ℕ) {script : Bytes}
    → program_script values konst ≡ ok script
    → IsWitness script
unfolding program_script
program_script-IsWitness [] konst h = absurd (cc)
program_script-IsWitness (version ∷ groups) konst h =
    let (program, cut, checked) = >>=-eq-ok (convert_bits groups 5 8 false) _ h in
    check_program-IsWitness version program konst checked

segwit_to_script-IsWitness :
    (address hrp : Str) {script : Bytes}
    → segwit_to_script address hrp ≡ ok script
    → IsWitness script
unfolding segwit_to_script
segwit_to_script-IsWitness address hrp h =
    let (decoded, e, made) = >>=-eq-ok (bech32_decode address hrp) _ h in
    program_script-IsWitness decoded.0 decoded.1 made

version_script-IsHashed :
    (ps : AddressParams) (version : ℕ) (payload : Bytes) {script : Bytes}
    → length payload ≡ 20
    → version_script ps version payload ≡ ok script
    → IsHashed script
version_script-IsHashed ps version payload size h =
    elim (Bool-cases (version == ps.p2pkh_version)) [
      | inl e ↦ inl (record { payload = payload; size = size; layout = ground (arith, e, h) })
      | inr n ↦ elim (Bool-cases (version == ps.p2sh_version)) [
        | inl e ↦ inr (record { payload = payload; size = size; layout = ground (arith, e, n, h) })
        | inr m ↦ absurd (ground (arith, n, m, h))
      ]
    ]

-- The test that sends an address to the bech32 decoder.
abbrev pub has_bech32_prefix : Str → AddressParams → Bool
has_bech32_prefix text ps =
    not (is_empty ps.bech32_hrp) && has_prefix (to_lower (trim text)) (ps.bech32_hrp ++ b'1' ∷ [])

module _ (sha256 : Bytes → Bytes) where
  pub base58_to_script-IsHashed :
      (address : Str) (ps : AddressParams) {script : Bytes}
      → base58_to_script sha256 address ps ≡ ok script
      → IsHashed script
  unfolding base58_to_script
  base58_to_script-IsHashed address ps h =
      let (decoded, e, rest) =
        >>=-eq-ok (map_err base58 (base58_check_decode sha256 address)) _ h in
      let (size, made) = fail_if-false (not (length decoded.1 == 20)) _ _ rest in
      version_script-IsHashed ps decoded.0 decoded.1 (ground (arith, size)) made

  pub prefixed-IsWitness :
      (text : Str) (ps : AddressParams) {script : Bytes}
      → has_bech32_prefix text ps ≡ true
      → address_to_script sha256 text ps ≡ ok script
      → IsWitness script
  unfolding address_to_script
  prefixed-IsWitness text ps here h = elim (Bool-cases (is_empty (trim text))) [
    | inl none_there ↦ absurd (let bad = rw none_there at h in cc)
    | inr some_there ↦
        segwit_to_script-IsWitness (to_lower (trim text)) ps.bech32_hrp
          (map_err-eq-ok bech32 _ (rw (some_there, here) at h))
  ]

  -- Whatever the text and the network: the script of an address that is accepted pays to a hash of 20
  -- bytes in one of the two old forms, or is a witness program of a version up to 16 and of 2 to 40
  -- bytes, 20 or 32 of them in version 0.
  pub address_to_script-IsStandard :
      (text : Str) (ps : AddressParams) {script : Bytes}
      → address_to_script sha256 text ps ≡ ok script
      → IsStandard script
  unfolding address_to_script
  address_to_script-IsStandard text ps h = elim (Bool-cases (has_bech32_prefix text ps)) [
    | inl here ↦ inr (prefixed-IsWitness text ps here h)
    | inr other ↦ elim (Bool-cases (is_empty (trim text))) [
      | inl none_there ↦ absurd (let bad = rw none_there at h in cc)
      | inr some_there ↦
          inl (base58_to_script-IsHashed (trim text) ps (rw (some_there, other) at h))
    ]
  ]
