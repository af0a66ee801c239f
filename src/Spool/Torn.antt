-- ===== src/Spool/Torn.antt =====
-- What a write that fails half-way does to the append after it.
use icminers_stratum_v.Prelude.{
  zero, suc, ℕ, ◌+◌, ◌<◌, ◌≤◌, List, [], ◌∷◌, ◌++◌, ◌≡◌, length, take, refl, arith, ok, none, All,
  ◌≢◌, Bool-cases, inl, inr, err, any, ap, leb, sym, false, ltb, append_assoc, ◌∙◌, length-append,
  All-append,
}
use icminers_stratum_v.Spool.{
  Codec, Spool, line_of, drop_cr, max_line, append, whole, torn, read_all, split_lines,
  decode_lines, Write, line_feed, full, write_failed, write_line,
}
use icminers_stratum_v.Spool.Queue.{IsCodec, split_lines-line}

All-take : (P : ℕ → Type 0) (n : ℕ) (xs : List ℕ) → All P xs → All P (take n xs)
All-take P zero xs h = tt
All-take P (suc n) [] h = tt
All-take P (suc n) (x ∷ xs) h = (h.0, All-take P n xs h.1)

take-append_short : (n : ℕ) (xs ys : List ℕ) → n ≤ length xs → take n (xs ++ ys) ≡ take n xs
take-append_short zero xs ys h = refl
take-append_short (suc n) [] ys h = absurd (omega (arith, h))
take-append_short (suc n) (x ∷ xs) ys h = rw (take-append_short n xs ys (omega (arith, h)))

-- A line without a line feed, and one more with it.
one_line :
    (xs ys : List ℕ)
    → All (λ b. b ≢ line_feed) xs
    → All (λ b. b ≢ line_feed) ys
    → split_lines (xs ++ (ys ++ (line_feed ∷ []))) ≡ (xs ++ ys) ∷ []
unfolding split_lines
one_line xs ys h k =
    ap split_lines (sym (append_assoc xs ys (line_feed ∷ [])))
    ∙ split_lines-line (xs ++ ys) [] (All-append (λ b. b ≢ line_feed) xs ys h k)

module _ {R : Type 0} (codec : Codec R) (law : IsCodec codec) where
  read_one :
      (xs : List ℕ)
      → codec.decode (drop_cr xs) ≡ none
      → length xs < max_line
      → any (λ l. leb max_line (length l)) (xs ∷ []) ≡ false × (decode_lines codec (xs ∷ []) ≡ [])
  unfolding decode_lines
  read_one xs garbage fits = (ground (arith, fits), rw (decode_lines, garbage) refl)

  append-whole_torn :
      (w : Write) (r : R) (s : Spool)
      → (append codec w r s).1 ≢ err full
      → append codec w r s ≡ write_line codec w (line_of codec r) s
  unfolding append
  append-whole_torn w r s some_room =
      elim (Bool-cases (ltb s.max (s.size + length (line_of codec r)))) [
        | inl over ↦ absurd (some_room (rw over refl))
        | inr room ↦ rw room refl
      ]

  -- On an empty file, with a codec that reads back every line that it wrote: an append that is
  -- acknowledged right after one of which only some bytes were written, but not the line feed, leaves
  -- a file from which neither record is read, if the two glued lines together are short enough for the
  -- scanner and decode to nothing.
  pub append-torn :
      (s : Spool) (r next : R) (n : ℕ)
      → s.file ≡ []
      → n < length (line_of codec r)
      → codec.decode (drop_cr (take n (codec.encode r) ++ codec.encode next)) ≡ none
      → length (take n (codec.encode r) ++ codec.encode next) < max_line
      → (append codec (torn n) r s).1 ≡ err write_failed
      → let after = append codec whole next (append codec (torn n) r s).0 in
        after.1 ≡ ok tt → read_all codec after.0.file ≡ ok []
  unfolding write_line read_all
  append-torn s r next n empty short garbage fits failed done =
      let line = line_of codec r in
      let first = append-whole_torn (torn n) r s (λ e. absurd (cc (e, failed))) in
      let second =
        append-whole_torn whole next (append codec (torn n) r s).0 (λ e. absurd (cc (e, done))) in
      let cut = take n (codec.encode r) in
      let before =
        ap (λ p. p.0.file) first
        ∙ ap (λ f. f ++ take n line) empty
        ∙ take-append_short n (codec.encode r) (line_feed ∷ [])
            (omega (arith, short, length-append (codec.encode r) (line_feed ∷ []))) in
      let file = ap (λ p. p.0.file) second ∙ ap (λ f. f ++ line_of codec next) before in
      let alone =
        one_line cut (codec.encode next)
          (All-take (λ b. b ≢ line_feed) n (codec.encode r) (law r).0) (law next).0 in
      let nothing = read_one (cut ++ codec.encode next) garbage fits in
      rw (file, read_all, alone, nothing.0, nothing.1) refl
