-- ===== src/Protocol/Parser/Collect.antt =====
-- How a frame gathers in the buffer, byte after byte, until one ends it.
use mathlib.Core.List.{append_assoc}
use hass_melitta_barista_ts.Prelude.{
  ℕ, ◌+◌, ◌-◌, ◌≤◌, ◌<◌, ◌≡◌, refl, ap, ◌∙◌, List, [], ◌∷◌, ◌++◌, map, Option, none, some, length,
  length-append, arith, All,
}
use hass_melitta_barista_ts.Const.Framing.{Command, frame_start, frame_end}
use hass_melitta_barista_ts.Protocol.Parser.{
  FrameParser, Arrival, match_command, emit, finish_byte, feed_byte, feed, append_option,
}

abbrev pub parser_at : ℕ → ℕ → List ℕ → FrameParser
parser_at t w buf = record { assembly_timeout = t; buffer = buf; started_at = w }

-- A byte that comes in time and finds room is looked at for an end of frame.
feed_byte_next :
    (t w b : ℕ) (bs : List ℕ) (a : Arrival)
    → a.seen_at - w ≤ t
    → length (b ∷ bs) < 128
    → feed_byte (parser_at t w (b ∷ bs)) a
      ≡ finish_byte (parser_at t w (b ∷ bs ++ a.byte ∷ [])) a.byte
unfolding feed_byte
feed_byte_next t w b bs a on_time room = ground arith

-- No end of frame there: the byte is kept.
finish_byte_quiet :
    (t w byte : ℕ) (buf : List ℕ)
    → match_command buf ≡ none
    → finish_byte (parser_at t w buf) byte ≡ (parser_at t w buf, none)
unfolding finish_byte
finish_byte_quiet t w byte buf e = ground arith

finish_byte_short :
    (t w byte : ℕ) (buf : List ℕ)
    → length buf < 4
    → finish_byte (parser_at t w buf) byte ≡ (parser_at t w buf, none)
unfolding finish_byte
finish_byte_short t w byte buf h = ground arith

finish_byte_hit :
    (t w : ℕ) (buf : List ℕ) (command : Command) (n : ℕ)
    → 4 ≤ length buf
    → match_command buf ≡ some (command, n)
    → finish_byte (parser_at t w buf) frame_end ≡ (parser_at t w [], emit buf command n)
unfolding finish_byte
finish_byte_hit t w buf command n h e = ground arith

abbrev pub OnTime : ℕ → ℕ → List Arrival → Type 0
OnTime t w = All (λ a. a.seen_at - w ≤ t)

-- Where a buffer that starts with these three bytes ends a frame: after `total` more.
pub record EndsAt (s c d : ℕ) (command : Command) (n total : ℕ) : Type 0 where
  pub quiet : (done : List ℕ) → length done < total → match_command (s ∷ c ∷ d ∷ done) ≡ none
  pub hit :
      (done : List ℕ) → length done ≡ total → match_command (s ∷ c ∷ d ∷ done) ≡ some (command, n)
  pub small : total ≤ 68

abbrev pub bytes_of : List Arrival → List ℕ
bytes_of = map (λ a. a.byte)

feed_cons :
    (p q r : FrameParser) (a : Arrival) (rest : List Arrival) (f : Option (Command × List ℕ))
    (fs : List (Command × List ℕ))
    → feed_byte p a ≡ (q, f)
    → feed q rest ≡ (r, fs)
    → feed p (a ∷ rest) ≡ (r, append_option f fs)
unfolding feed
feed_cons p q r a rest f fs e k = rw (e, feed) (rw (k, feed) refl)

module _ {s c d : ℕ} {command : Command} {n total : ℕ} (ends : EndsAt s c d command n total)
    (t w : ℕ) where
  step_hit :
      (done : List ℕ) (a : Arrival)
      → a.seen_at - w ≤ t
      → a.byte ≡ frame_end
      → length done + 1 ≡ total
      → feed_byte (parser_at t w (s ∷ c ∷ d ∷ done)) a
        ≡ (parser_at t w [], emit (s ∷ c ∷ d ∷ done ++ a.byte ∷ []) command n)
  step_hit done a o z k =
      feed_byte_next t w s (c ∷ d ∷ done) a o (omega (arith, ends.small))
      ∙ rw z (
          finish_byte_hit t w (s ∷ c ∷ d ∷ done ++ frame_end ∷ []) command n
            (omega (arith, length-append done (frame_end ∷ [])))
            (ends.hit (done ++ frame_end ∷ [])
              (omega (arith, length-append done (frame_end ∷ [])))))

  step_quiet :
      (done : List ℕ) (a : Arrival)
      → a.seen_at - w ≤ t
      → length done + 1 < total
      → feed_byte (parser_at t w (s ∷ c ∷ d ∷ done)) a
        ≡ (parser_at t w (s ∷ c ∷ d ∷ done ++ a.byte ∷ []), none)
  step_quiet done a o h =
      feed_byte_next t w s (c ∷ d ∷ done) a o (omega (arith, ends.small))
      ∙ finish_byte_quiet t w a.byte (s ∷ c ∷ d ∷ done ++ a.byte ∷ [])
          (ends.quiet (done ++ a.byte ∷ []) (omega (arith, length-append done (a.byte ∷ []))))

  feed_tail :
      (arrivals : List Arrival) (done mid : List ℕ)
      → OnTime t w arrivals
      → bytes_of arrivals ≡ mid ++ frame_end ∷ []
      → length done + length arrivals ≡ total
      → feed (parser_at t w (s ∷ c ∷ d ∷ done)) arrivals ≡ (
        parser_at t w [],
        append_option (emit (s ∷ c ∷ d ∷ done ++ bytes_of arrivals) command n) [],
      )
  feed_tail [] done [] o e k = absurd (cc)
  feed_tail [] done (m ∷ mid) o e k = absurd (cc)
  feed_tail (a ∷ []) done [] o e k =
      feed_cons _ _ _ a [] _ [] (step_hit done a o.0 (cc) k) (unfold feed in refl)
  feed_tail (a ∷ []) done (m ∷ []) o e k = absurd (cc)
  feed_tail (a ∷ []) done (m ∷ l ∷ mid) o e k = absurd (cc)
  feed_tail (a ∷ b ∷ more) done [] o e k = absurd (cc)
  feed_tail (a ∷ b ∷ more) done (m ∷ mid) o e k =
      feed_cons _ _ _ a (b ∷ more) none _ (step_quiet done a o.0 (omega arith)) (
        feed_tail (b ∷ more) (done ++ a.byte ∷ []) mid o.1 (cc)
          (omega (arith, length-append done (a.byte ∷ [])))
        ∙ ap (λ (buf : List ℕ). (parser_at t w [], append_option (emit buf command n) []))
            (append_assoc (s ∷ c ∷ d ∷ done) (a.byte ∷ []) (bytes_of (b ∷ more))))

  -- The whole frame, from an idle parser whose clock reads `w` when the frame starts.
  pub feed_whole :
      (idle_since : ℕ) (a0 a1 a2 : Arrival) (more : List Arrival) (mid : List ℕ)
      → s ≡ frame_start
      → a0.byte ≡ s
      → a0.start_at ≡ w
      → a1.byte ≡ c
      → a2.byte ≡ d
      → OnTime t w (a1 ∷ a2 ∷ more)
      → bytes_of more ≡ mid ++ frame_end ∷ []
      → length more ≡ total
      → feed (parser_at t idle_since []) (a0 ∷ a1 ∷ a2 ∷ more)
        ≡ (parser_at t w [], append_option (emit (s ∷ c ∷ d ∷ bytes_of more) command n) [])
  feed_whole idle_since a0 a1 a2 more mid es e0 ew e1 e2 o e k =
      feed_cons _ (parser_at t w (s ∷ [])) _ a0 _ none _ (unfold feed_byte in ground arith) (
        feed_cons _ (parser_at t w (s ∷ c ∷ [])) _ a1 _ none _
          (feed_byte_next t w s [] a1 o.0 (omega arith)
            ∙ rw e1 (finish_byte_short t w c (s ∷ c ∷ []) (omega arith)))
          (feed_cons _ (parser_at t w (s ∷ c ∷ d ∷ [])) _ a2 _ none _
            (feed_byte_next t w s (c ∷ []) a2 o.1.0 (omega arith)
              ∙ rw e2 (finish_byte_short t w d (s ∷ c ∷ d ∷ []) (omega arith)))
            (feed_tail more [] mid o.1.1 e (omega arith))))
