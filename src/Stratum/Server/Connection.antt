-- ===== src/Stratum/Server/Connection.antt =====
-- The loop of a connection ends, and what one line that does not fit the buffer does to it.
use icminers_stratum_v.Prelude.{
  ℕ, zero, suc, ◌+◌, ◌-◌, ◌<◌, ◌≤◌, ◌≡◌, ◌⊎◌, refl, arith, true, inl, inr, Option, none, some, List,
  [], ◌∷◌, Str, str_eq, leb, length, Bool-cases,
}
use icminers_stratum_v.Stratum.Handler.{Request}
use icminers_stratum_v.Stratum.Codec.{
  ReadResult, eof, read_scanned, read, transport, ScanError, scan, line_too_long, stopped, Stream,
  received, too_long, malformed, io_failed, next_line, blank, buffer_size,
}
use icminers_stratum_v.Prelude.Floats.{Floats}
use icminers_stratum_v.Stratum.Server.{
  Moment, on_read, Conn, on_malformed, max_malformed_per_conn, on_request, handle_conn, on_manager,
}

-- What can be read without a line being taken off the stream.
pub data Stops : ReadResult → Type 0 where
  at_end : Stops eof
  at_failure : Stops transport
  at_long_line : Stops line_too_long

module _ (decode : Str → Option Request) (max_line : ℕ) where
  Stops-of : (e : Option ScanError) → Stops (read_scanned decode max_line (stopped e))
  unfolding read_scanned
  Stops-of none = at_end
  Stops-of (some too_long) = at_long_line
  Stops-of (some io_failed) = at_failure

  -- A read takes a line, or takes none and stops.
  read-shrinks :
      (s : Stream)
      → (length (read decode max_line s).0.lines < length s.lines)
        ⊎ ((length (read decode max_line s).0.lines ≡ length s.lines)
            × Stops (read decode max_line s).1)
  unfolding read scan
  read-shrinks s = taken (buffer_size max_line) s.failed s.lines s refl
    where
      taken :
          (size : ℕ) (failed : Option ScanError) (lines : List Str) (s : Stream)
          → s.lines ≡ lines
          → (length (next_line size failed lines s).0.lines < length s.lines)
            ⊎ ((length (next_line size failed lines s).0.lines ≡ length s.lines)
                × Stops (read_scanned decode max_line (next_line size failed lines s).1))
      taken size (some e) lines s h = unfold next_line in inr (refl, Stops-of (some e))
      taken size none [] s h = unfold next_line in inr (refl, Stops-of s.ending)
      taken size none (line ∷ lines) s h =
          unfold next_line in
          elim (Bool-cases (leb size (length line))) [
            | inl long ↦ rw long (inr (refl, Stops-of (some too_long)))
            | inr fits ↦ rw fits (inl (rw h (omega arith)))
          ]

module _ (fl : Floats) {N : Type 0} where
  open fl use {F}

  -- How far a connection is from its cap of malformed lines.
  abbrev patience : Conn F N → ℕ
  patience c = max_malformed_per_conn - c.malformed_lines

  on_malformed-patience :
      (now : ℕ) (c : Conn F N)
      → (on_malformed fl now c).1 ≡ true
      → patience (on_malformed fl now c).0 < patience c
  unfolding on_malformed
  on_malformed-patience now c h = ground (arith, h)

  -- Reading goes on with the same patience or, after a line that counts, with less.
  on_read-patience :
      (moment : Moment F N) (c : Conn F N) (r : ReadResult)
      → (on_read fl moment c r).1 ≡ true
      → (patience (on_read fl moment c r).0 ≤ patience c)
        × (Stops r → patience (on_read fl moment c r).0 < patience c)
  unfolding on_read on_request
  on_read-patience moment c eof h = absurd (cc)
  on_read-patience moment c transport h = absurd (cc)
  on_read-patience moment c line_too_long h =
      let less = on_malformed-patience moment.now c h in (omega (arith, less), λ s. less)
  on_read-patience moment c malformed h =
      let less = on_malformed-patience moment.now c h in (omega (arith, less), λ s. less)
  on_read-patience moment c blank h = (omega arith, λ s. elim s [ ])
  on_read-patience moment c (received req) h = (omega arith, λ s. elim s [ ])

  module _ (decode : Str → Option Request) (max_line : ℕ) (world : ℕ → Moment F N) where
    -- The loop that serves a connection ends, whatever is sent and whatever the others do: within one
    -- round for each line of the stream, one for each malformed line that the connection may send
    -- before it is dropped, and one more.
    pub handle_conn-returns :
        (fuel round : ℕ) (s : Stream) (c : Conn F N)
        → length s.lines + (max_malformed_per_conn - c.malformed_lines) < fuel
        → (end : Conn F N) × (handle_conn fl decode max_line world fuel round s c ≡ some end)
    unfolding handle_conn
    handle_conn-returns zero round s c h = absurd (omega (arith, h))
    handle_conn-returns (suc fuel) round s c h =
        let moment = world round in
        let here = record c { bans = on_manager moment.others c.bans } in
        let s' = (read decode max_line s).0 in
        let r = (read decode max_line s).1 in
        elim (Bool-cases moment.cancelled) [
          | inl over ↦ (here, rw over refl)
          | inr live ↦ elim (Bool-cases (on_read fl moment here r).1) [
            | inr left ↦ ((on_read fl moment here r).0, rw (live, left) refl)
            | inl goes_on ↦
                let (no_more, less) = on_read-patience moment here r goes_on in
                rw (live, goes_on)
                  (handle_conn-returns fuel (round + 1) s' (on_read fl moment here r).0
                    (elim (read-shrinks decode max_line s) [
                      | inl shorter ↦ omega (arith, h, shorter, no_more)
                      | inr (same, stops) ↦ omega (arith, h, same, less stops)
                    ]))
          ]
        ]
