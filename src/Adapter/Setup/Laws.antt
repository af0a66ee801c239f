-- ===== src/Adapter/Setup/Laws.antt =====
-- What normalizing an address does: the texts it works on, and what it keeps.
use mathlib.Core.List.{reverse, reverse-cons, reverse-reverse, reverse-append}
use mathlib.Core.Path.{ap₂, subst}
use icminers_stratum_v.Prelude.{
  ℕ, ◌≡◌, refl, ap, sym, ◌∙◌, arith, [], ◌∷◌, ◌++◌, inl, inr, ok, ◌>>=◌, >>=-eq-ok, Str, Bool-cases,
  if◌then◌else◌,
}
use icminers_stratum_v.Prelude.Text.{trim, trim_left, to_lower, lower, is_space, Solid}
use icminers_stratum_v.Coins.Bytes.{Bytes}
use icminers_stratum_v.Coins.Address.{AddressParams, address_to_script}
use icminers_stratum_v.Adapter.Setup.{normalize_address}
use icminers_stratum_v.Coins.Address.Laws.{has_bech32_prefix}
use icminers_stratum_v.Coins.Template.{is_empty}

-- Trimming on the left leaves a text that does not start with white space.
abbrev Starts : Str → Type 0
Starts [] = Unit {0}
Starts (b ∷ s) = Solid b

trim_left-Starts : (s : Str) → Starts (trim_left s)
unfolding trim_left
trim_left-Starts [] = tt
trim_left-Starts (b ∷ s) = elim (Bool-cases (is_space b)) [
  | inl space ↦ rw space (trim_left-Starts s)
  | inr solid ↦ rw solid solid
]

trim_left-unchanged : (s : Str) → Starts s → trim_left s ≡ s
unfolding trim_left
trim_left-unchanged [] h = refl
trim_left-unchanged (b ∷ s) h = rw h refl

-- What is cut off stood in front.
cut_off : (s : Str) → (p : Str) × (s ≡ p ++ trim_left s)
unfolding trim_left
cut_off [] = ([], refl)
cut_off (b ∷ s) = elim (Bool-cases (is_space b)) [
  | inl space ↦ (let (p, e) = cut_off s in (b ∷ p, rw space (ap (λ t. b ∷ t) e)))
  | inr solid ↦ ([], rw solid refl)
]

append-Starts : (s t : Str) → Starts (s ++ t) → Starts s
append-Starts [] t h = tt
append-Starts (b ∷ s) t h = h

trim-Starts : (s : Str) → Starts (trim s)
unfolding trim
trim-Starts s =
    let u = trim_left s in
    let w = reverse u in
    let (p, e) = cut_off w in
    append-Starts (reverse (trim_left w)) (reverse p) (
      subst Starts (sym (reverse-reverse u) ∙ ap reverse e ∙ reverse-append p (trim_left w))
        (trim_left-Starts s))

trim-trim : (s : Str) → trim (trim s) ≡ trim s
unfolding trim
trim-trim s =
    let w = trim_left (reverse (trim_left s)) in
    ap (λ t. reverse (trim_left (reverse t))) (trim_left-unchanged (reverse w) (trim-Starts s))
    ∙ ap (λ t. reverse (trim_left t)) (reverse-reverse w)
    ∙ ap reverse (trim_left-unchanged w (trim_left-Starts (reverse (trim_left s))))

lower-lower : (b : ℕ) → lower (lower b) ≡ lower b
lower-lower b = ground arith

to_lower-to_lower : (s : Str) → to_lower (to_lower s) ≡ to_lower s
unfolding to_lower
to_lower-to_lower [] = refl
to_lower-to_lower (b ∷ s) = ap₂ (λ a t. a ∷ t) (lower-lower b) (to_lower-to_lower s)

is_space-lower : (b : ℕ) → is_space (lower b) ≡ is_space b
is_space-lower b = ground arith

trim_left-to_lower : (s : Str) → trim_left (to_lower s) ≡ to_lower (trim_left s)
unfolding trim_left to_lower
trim_left-to_lower [] = refl
trim_left-to_lower (b ∷ s) = elim (Bool-cases (is_space b)) [
  | inl space ↦ rw (is_space-lower b, space) (trim_left-to_lower s)
  | inr solid ↦ rw (is_space-lower b, solid) refl
]

to_lower-append : (s t : Str) → to_lower (s ++ t) ≡ to_lower s ++ to_lower t
unfolding to_lower
to_lower-append [] t = refl
to_lower-append (b ∷ s) t = ap (λ r. lower b ∷ r) (to_lower-append s t)

reverse-to_lower : (s : Str) → reverse (to_lower s) ≡ to_lower (reverse s)
unfolding to_lower
reverse-to_lower [] = refl
reverse-to_lower (b ∷ s) =
    reverse-cons (lower b) (to_lower s)
    ∙ ap (λ r. r ++ lower b ∷ []) (reverse-to_lower s)
    ∙ sym (to_lower-append (reverse s) (b ∷ []))
    ∙ ap to_lower (sym (reverse-cons b s))

trim-to_lower : (s : Str) → trim (to_lower s) ≡ to_lower (trim s)
unfolding trim
trim-to_lower s =
    ap (λ t. reverse (trim_left (reverse t))) (trim_left-to_lower s)
    ∙ ap (λ t. reverse (trim_left t)) (reverse-to_lower (trim_left s))
    ∙ ap reverse (trim_left-to_lower (reverse (trim_left s)))
    ∙ reverse-to_lower (trim_left (reverse (trim_left s)))

-- The text that the decoders get, for the network's prefix.
module _ (ps : AddressParams) where
  unfoldable normal : Str → Str
  normal text = if has_bech32_prefix text ps then to_lower (trim text) else trim text

  lowered : (text : Str) → trim (to_lower (trim text)) ≡ to_lower (trim text)
  lowered text = trim-to_lower (trim text) ∙ ap to_lower (trim-trim text)

  lowered_prefix :
      (text : Str) → has_bech32_prefix (to_lower (trim text)) ps ≡ has_bech32_prefix text ps
  lowered_prefix text = rw (lowered text, to_lower-to_lower (trim text)) refl

  normal-normal : (text : Str) → normal (normal text) ≡ normal text
  unfolding normal
  normal-normal text = elim (Bool-cases (has_bech32_prefix text ps)) [
    | inl here ↦ rw here (
        rw (lowered_prefix text, here) (ap to_lower (lowered text) ∙ to_lower-to_lower (trim text)))
    | inr other ↦ rw other (rw (trim-trim text, other) refl)
  ]

  is_empty-to_lower : (s : Str) → is_empty (to_lower s) ≡ is_empty s
  unfolding to_lower
  is_empty-to_lower [] = refl
  is_empty-to_lower (b ∷ s) = refl

  module _ (sha256 : Bytes → Bytes) where
    address_to_script-normal :
        (text : Str) → address_to_script sha256 (normal text) ps ≡ address_to_script sha256 text ps
    unfolding normal address_to_script
    address_to_script-normal text = elim (Bool-cases (has_bech32_prefix text ps)) [
      | inl here ↦
          rw
            (here, lowered text, to_lower-to_lower (trim text), is_empty-to_lower (trim text), here)
            refl
      | inr other ↦ rw (other, trim-trim text, other) refl
    ]

    normalize_address_lem :
        (text : Str)
        → normalize_address sha256 ps text
          ≡ (address_to_script sha256 text ps >>= λ _. ok (normal text))
    unfolding normalize_address normal
    normalize_address_lem text =
        ap (λ r. r >>= λ _. ok (normal text)) (address_to_script-normal text)

    -- Whatever the text, the network and the hash function: if a text is normalized to an address, then
    -- the address is normalized to itself, and the text and the address are read as the same script.
    pub normalize_address-twice :
        (text : Str) {address : Str}
        → normalize_address sha256 ps text ≡ ok address
        → (normalize_address sha256 ps address ≡ ok address)
          × ((script : Bytes) × (address_to_script sha256 text ps ≡ ok script)
              × (address_to_script sha256 address ps ≡ ok script))
    normalize_address-twice text {address} h =
        let (script, read, made) =
          >>=-eq-ok (address_to_script sha256 text ps) _ (sym (normalize_address_lem text) ∙ h) in
        let same : normal text ≡ address = cc in
        let read' =
          ap (λ a. address_to_script sha256 a ps) (sym same)
          ∙ address_to_script-normal text
          ∙ read in
        (
          normalize_address_lem address
              ∙ rw read' (ap ok (ap normal (sym same) ∙ normal-normal text ∙ same)),
          (script, read, read'),
        )
