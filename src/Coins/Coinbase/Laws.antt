-- ===== src/Coins/Coinbase/Laws.antt =====
-- An assembled coinbase read back as the protocol lays it out.
use icminers_stratum_v.Prelude.{
  take-append, ◌*◌, ◌∙◌, ℕ, ◌+◌, ◌^◌, ◌≤◌, ◌<◌, ◌≡◌, ◌++◌, arith, length, length-append, take, drop,
  ok, append_assoc,
}
use icminers_stratum_v.Coins.Bytes.{Bytes, le_value}
use icminers_stratum_v.Coins.Height.{
  encode_height_bip34, decode_height_bip34, decode_height_bip34-encode_height_bip34,
}
use icminers_stratum_v.Coins.Coinbase.{
  CoinbaseSpec, CoinbaseParts, build_coinbase, assemble, build_coinb1, build_coinb2, script_sig_len,
  max_script_sig_len,
}

-- The scriptSig of a serialized coinbase: behind the version, the input count and the 36 bytes of
-- the null outpoint stands its length in one byte.
pub script_sig : Bytes → Bytes
script_sig tx = take (le_value (take 1 (drop 41 tx))) (drop 42 tx)

pub script_sig_size : Bytes → ℕ
script_sig_size tx = le_value (take 1 (drop 41 tx))

built :
    (spec : CoinbaseSpec) {parts : CoinbaseParts}
    → build_coinbase spec ≡ ok parts
    → (0 < spec.height)
      × (script_sig_len spec ≤ max_script_sig_len)
      × (parts.coinb1 ≡ build_coinb1 spec)
      × (parts.coinb2 ≡ build_coinb2 spec)
      × (parts.extra_nonce_size ≡ spec.extra_nonce1_size + spec.extra_nonce2_size)
unfolding build_coinbase
built spec h = ground arith

assembled :
    (parts : CoinbaseParts) (en1 en2 : Bytes) {tx : Bytes}
    → assemble parts en1 en2 ≡ ok tx
    → (length en1 + length en2 ≡ parts.extra_nonce_size)
      × (tx ≡ ((parts.coinb1 ++ en1) ++ en2) ++ parts.coinb2)
unfolding assemble
assembled parts en1 en2 h = ground arith

-- The source's scriptSig: the part behind the length byte, before what `coinb2` holds.
abbrev signed : CoinbaseSpec → Bytes → Bytes → Bytes
signed spec en1 en2 = ((encode_height_bip34 spec.height ++ spec.tag) ++ en1) ++ en2

length-signed :
    (spec : CoinbaseSpec) (en1 en2 : Bytes)
    → length en1 + length en2 ≡ spec.extra_nonce1_size + spec.extra_nonce2_size
    → length (signed spec en1 en2) ≡ script_sig_len spec
unfolding script_sig_len
length-signed spec en1 en2 h =
    let push = encode_height_bip34 spec.height in
    omega (
      arith,
      length-append ((push ++ spec.tag) ++ en1) en2,
      length-append (push ++ spec.tag) en1,
      length-append push spec.tag,
    )

-- Both readings of a serialized coinbase land on its scriptSig.
serialized :
    (spec : CoinbaseSpec) (en1 en2 rest : Bytes)
    → length en1 + length en2 ≡ spec.extra_nonce1_size + spec.extra_nonce2_size
    → (script_sig_size (((build_coinb1 spec ++ en1) ++ en2) ++ rest) ≡ script_sig_len spec)
      × (script_sig (((build_coinb1 spec ++ en1) ++ en2) ++ rest) ≡ signed spec en1 en2)
unfolding script_sig script_sig_size build_coinb1
serialized spec en1 en2 rest h =
    let size : script_sig_len spec + 256 * 0 ≡ length (signed spec en1 en2) =
      omega (arith, length-signed spec en1 en2 h) in
    (omega arith, rw size (take-append (signed spec en1 en2) rest))

-- Whenever a coinbase is built and assembled with extranonces of the announced size, its scriptSig
-- length byte counts exactly height push, tag and both extranonces, at most 100 bytes in all; the
-- scriptSig begins with a push that decodes to the template's height.
pub build_coinbase-assemble :
    (spec : CoinbaseSpec) (parts : CoinbaseParts) (en1 en2 tx : Bytes)
    → spec.height < 2 ^ 63
    → build_coinbase spec ≡ ok parts
    → assemble parts en1 en2 ≡ ok tx
    → (script_sig_size tx ≤ 100)
      × (script_sig tx ≡ encode_height_bip34 spec.height ++ (spec.tag ++ (en1 ++ en2)))
      × (decode_height_bip34 (script_sig tx)
          ≡ ok (spec.height, length (encode_height_bip34 spec.height)))
build_coinbase-assemble spec parts en1 en2 tx small b a =
    let (pos, bound, c1, c2, size) = built spec b in
    let (room, layout) = assembled parts en1 en2 a in
    let (length_byte, whole) = serialized spec en1 en2 parts.coinb2 (room ∙ size) in
    let flat : signed spec en1 en2 ≡ encode_height_bip34 spec.height ++ (spec.tag ++ (en1 ++ en2)) =
      simp append_assoc in
    rw (layout, c1)
      (
        rw length_byte bound,
        whole ∙ flat,
        rw (whole, flat)
            (decode_height_bip34-encode_height_bip34 spec.height (spec.tag ++ (en1 ++ en2)) pos
              small),
      )
