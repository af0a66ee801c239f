-- ===== src/Spool/Queue.antt =====
-- The spool is a queue: what its consumer has confirmed, followed by what the file holds, is what was
-- appended, in that order.
use icminers_stratum_v.Prelude.{
  ℕ, ◌+◌, ◌<◌, List, [], ◌∷◌, ◌++◌, false, length, some, ok, ◌≡◌, ◌≢◌, All, refl, arith,
  append_assoc, sym, ap, ◌∙◌, Bool-cases, inl, inr, length-append, append-nil, any, leb, ◌==◌, ltb,
  All-append,
}
use icminers_stratum_v.Spool.{
  Codec, split_lines, line_feed, put_first, max_line, Spool, render, decode_lines, read_all, append,
  drop_cr, line_of, whole,
}

-- What the codec promises: a line has no line feed, does not end in a carriage return, is not empty,
-- and decodes to its record.
abbrev pub IsCodec : {R : Type 0} → Codec R → Type 0
IsCodec {R} codec =
    (r : R)
    → All (λ b. b ≢ line_feed) (codec.encode r)
      × (drop_cr (codec.encode r) ≡ codec.encode r)
      × (codec.decode (codec.encode r) ≡ some r)
      × (0 < length (codec.encode r))

pub split_lines-line :
    (xs ys : List ℕ)
    → All (λ b. b ≢ line_feed) xs
    → split_lines (xs ++ (line_feed ∷ ys)) ≡ xs ∷ split_lines ys
unfolding split_lines put_first
split_lines-line [] ys h = refl
split_lines-line (x ∷ xs) ys h = elim (Bool-cases (x == line_feed)) [
  | inl feed ↦ absurd (h.0 (ground arith))
  | inr other ↦ rw (other, split_lines-line xs ys h.1) refl
]

module _ {R : Type 0} (codec : Codec R) where
  abbrev pub Fits : R → Type 0
  Fits r = length (codec.encode r) < max_line

  -- The spool's file holds these records.
  unfoldable pub Holds : Spool → List R → Type 0
  Holds s q = (s.file ≡ render codec q) × (s.size ≡ length s.file) × All Fits q

  module _ (law : IsCodec codec) where
    split_lines-render :
        (r : R) (rs : List R)
        → split_lines (render codec (r ∷ rs)) ≡ codec.encode r ∷ split_lines (render codec rs)
    unfolding render
    split_lines-render r rs =
        rw (append_assoc (codec.encode r) (line_feed ∷ []) (render codec rs))
          (split_lines-line (codec.encode r) (render codec rs) (law r).0)

    decode_lines-render : (rs : List R) → decode_lines codec (split_lines (render codec rs)) ≡ rs
    unfolding decode_lines split_lines render
    decode_lines-render [] = refl
    decode_lines-render (r ∷ rs) =
        rw (split_lines-render r rs, decode_lines, (law r).1, (law r).2)
          (rw ((law r).1, decode_lines-render rs) (ground (arith, (law r).3)))

    short-render :
        (rs : List R)
        → All Fits rs
        → any (λ l. leb max_line (length l)) (split_lines (render codec rs)) ≡ false
    unfolding split_lines render
    short-render [] h = refl
    short-render (r ∷ rs) h =
        rw (split_lines-render r rs) (ground (arith, h.0, short-render rs h.1))

    -- Reading gives back what the file holds.
    pub read_all-render : (rs : List R) → All Fits rs → read_all codec (render codec rs) ≡ ok rs
    unfolding read_all
    read_all-render rs h = rw (short-render rs h, decode_lines-render rs) refl

  render-append :
      (q : List R) (r : R) → render codec (q ++ (r ∷ [])) ≡ render codec q ++ line_of codec r
  unfolding render
  render-append [] r = append-nil (line_of codec r)
  render-append (x ∷ q) r =
      rw (render-append q r)
        (sym (append_assoc (line_of codec x) (render codec q) (line_of codec r)))

  pub append-Holds :
      (s : Spool) (q : List R) (r : R)
      → Holds s q
      → Fits r
      → (append codec whole r s).1 ≡ ok tt
      → Holds (append codec whole r s).0 (q ++ (r ∷ []))
  unfolding append Holds
  append-Holds s q r h fits done =
      elim (Bool-cases (ltb s.max (s.size + length (line_of codec r)))) [
        | inl over ↦ absurd (cc (rw (over, append) at done))
        | inr room ↦
            rw (room, append)
              (
                ap (λ f. f ++ line_of codec r) h.0 ∙ sym (render-append q r),
                omega (arith, h.1, length-append s.file (line_of codec r)),
                All-append Fits q (r ∷ []) h.2 (fits, tt),
              )
      ]
