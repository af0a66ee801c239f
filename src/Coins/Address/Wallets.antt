-- ===== src/Coins/Address/Wallets.antt =====
-- Base58check addresses as wallets write them: which are read as what they stand for, and which
-- are taken for bech32.
use icminers_stratum_v.Prelude.{
  ℕ, zero, suc, ◌/◌, ◌%◌, ◌<◌, ◌≡◌, ◌≢◌, refl, ◌∙◌, arith, List, [], ◌∷◌, ◌++◌, true, false, not,
  inl, inr, ok, some, All, Bool-cases, map, replicate, Str, ltb, All-append, length, ◌==◌,
}
use icminers_stratum_v.Coins.Base58.RoundTrip.{
  base58_encode, b58_char, base58_check_encode, checksum_of, full_bytes-base58_encode,
  base58_check_decode-base58_check_encode, every_digit_lem, every_digit,
}
use icminers_stratum_v.Coins.Base58.{full_bytes, emit_digits, number_from, number_bytes, leading}
use icminers_stratum_v.Prelude.Text.{Solid, trim, trim-Solid, is_space}
use icminers_stratum_v.Coins.Bytes.{Bytes, be_value, IsBytes, take-IsBytes}
use icminers_stratum_v.Coins.Address.{
  address_to_script, base58_to_script, AddressParams, length, is_empty, trim, version_script,
}
use icminers_stratum_v.Coins.Address.Laws.{
  IsWitness, IsHashed, has_bech32_prefix, prefixed-IsWitness, base58_to_script-IsHashed,
}
use icminers_stratum_v.Coins.Template.{is_empty}
use icminers_stratum_v.Coins.Merkle.{double_sha256}

emit_digits-All :
    (k n : ℕ) (out : List ℕ) → All (λ d. d < 58) out → All (λ d. d < 58) (emit_digits 58 k n out)
unfolding emit_digits
emit_digits-All zero n out h = h
emit_digits-All (suc k) n out h = elim (Bool-cases (ltb 0 n)) [
  | inl more ↦ rw more (emit_digits-All k (n / 58) ((n % 58) ∷ out) (omega arith, h))
  | inr done ↦ rw done h
]

b58_char-Solid : (d : ℕ) → d < 58 → Solid (b58_char d)
b58_char-Solid d h =
    let table =
      every_digit_lem (λ i. not (is_space (b58_char i))) 58 (unfold every_digit in refl) h in
    ground (arith, table)

chars-Solid : (ds : List ℕ) → All (λ d. d < 58) ds → All Solid (map b58_char ds)
chars-Solid [] h = tt
chars-Solid (d ∷ ds) h = (b58_char-Solid d h.0, chars-Solid ds h.1)

ones-Solid : (k : ℕ) → All Solid (replicate k b'1')
ones-Solid zero = tt
ones-Solid (suc k) = (refl, ones-Solid k)

base58_encode-Solid : (bs : Bytes) → All Solid (base58_encode bs)
unfolding base58_encode
base58_encode-Solid bs =
    let n = be_value bs in
    All-append Solid (replicate (leading 0 bs) b'1') (map b58_char (emit_digits 58 n n []))
      (ones-Solid (leading 0 bs)) (chars-Solid (emit_digits 58 n n []) (emit_digits-All n n [] tt))

not_empty : (s : Str) (b : ℕ) (bs : Bytes) → full_bytes s ≡ some (b ∷ bs) → is_empty s ≡ false
unfolding full_bytes number_from number_bytes leading emit_digits
not_empty [] b bs h = absurd (cc)
not_empty (c ∷ s) b bs h = refl

-- The first byte tells a witness program from the old forms.
witness-ne-IsHashed : {script : Bytes} → IsWitness script → ¬ (IsHashed script)
witness-ne-IsHashed w (inl p) = ground (arith, w.known, w.layout ∙ refl, p.layout)
witness-ne-IsHashed w (inr p) = ground (arith, w.known, w.layout ∙ refl, p.layout)

module _ (sha256 : Bytes → Bytes) where
  -- For every hash of 32 bytes: what a wallet writes for a version and a hash of 20 bytes is read as
  -- the network's script for them, or refused if the version is neither of the network's, unless the
  -- text looks like a bech32 address of the network.
  pub address_to_script-base58_check_encode :
      (version : ℕ) (payload : Bytes) (ps : AddressParams)
      → ((b : Bytes) → (length (sha256 b) ≡ 32) × IsBytes (sha256 b))
      → IsBytes (version ∷ payload)
      → length payload ≡ 20
      → has_bech32_prefix (base58_check_encode sha256 version payload) ps ≡ false
      → address_to_script sha256 (base58_check_encode sha256 version payload) ps
        ≡ version_script ps version payload
  unfolding address_to_script base58_to_script
  address_to_script-base58_check_encode version payload ps hash h size plain =
      let text = base58_check_encode sha256 version payload in
      let tail = checksum_of sha256 (version ∷ payload) in
      let solid : trim text ≡ text =
        trim-Solid text
          (unfold base58_check_encode in base58_encode-Solid ((version ∷ payload) ++ tail)) in
      let tail_bytes =
        take-IsBytes 4 (double_sha256 sha256 (version ∷ payload))
          (unfold double_sha256 in (hash (sha256 (version ∷ payload))).1) in
      let all_bytes = All-append (λ b. b < 256) (version ∷ payload) tail h tail_bytes in
      let read = full_bytes-base58_encode ((version ∷ payload) ++ tail) all_bytes in
      let there = not_empty text version (payload ++ tail) (unfold base58_check_encode in read) in
      let decoded = base58_check_decode-base58_check_encode sha256 version payload hash h in
      let twenty : (length payload == 20) ≡ true = ground (arith, size) in
      rw (solid, there, rw solid at plain, decoded, twenty) refl

  -- A text that looks like a bech32 address of the network is never read as the base58check address
  -- that it also is: no script that it would have as such is what `AddressToScript` returns.
  pub address_to_script-shadowed :
      (text : Str) (ps : AddressParams) (script : Bytes)
      → has_bech32_prefix text ps ≡ true
      → base58_to_script sha256 (trim text) ps ≡ ok script
      → address_to_script sha256 text ps ≢ ok script
  address_to_script-shadowed text ps script here old new =
      witness-ne-IsHashed (prefixed-IsWitness sha256 text ps here new)
        (base58_to_script-IsHashed sha256 (trim text) ps old)
