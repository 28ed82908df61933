-- ===== src/Protocol/Parser/Complete.antt =====
-- The parser gets every frame that the machine can send, whatever bytes its cipher text holds.
use hass_melitta_barista_ts.Prelude.{
  ℕ, ◌+◌, ◌≡◌, refl, ap, ◌∙◌, if◌then◌else◌, List, [], ◌∷◌, ◌++◌, Option, none, some, length,
  length-append, length-map, arith, Bool, true, false,
}
use hass_melitta_barista_ts.Const.Framing.{Command, lookup_inbound, frame_start, frame_end}
use hass_melitta_barista_ts.Protocol.Rc4.{rc4}
use hass_melitta_barista_ts.Protocol.Checksum.{checksum}
use hass_melitta_barista_ts.Protocol.Frame.{build_frame}
use hass_melitta_barista_ts.Protocol.Parser.{Arrival, emit, feed, append_option}
use hass_melitta_barista_ts.Protocol.Parser.Match.{
  two_letters, one_letter, match_command_two, match_command_one,
}
use hass_melitta_barista_ts.Protocol.Parser.Emit.{is_encrypted_lem, emit_sealed}
use hass_melitta_barista_ts.Protocol.Rc4.Involution.{rc4_twice, length-rc4}
use hass_melitta_barista_ts.Protocol.Parser.Collect.{
  parser_at, OnTime, bytes_of, EndsAt, feed_whole,
}

EndsAt-two :
    (c d size : ℕ) (encrypted : Bool)
    → lookup_inbound (c ∷ d ∷ []) ≡ some (size, encrypted)
    → EndsAt frame_start c d (c ∷ d ∷ []) 2 (size + 2)
EndsAt-two c d size encrypted h = record {
  quiet = λ done k. match_command_two frame_start c d size encrypted done h ∙ ground arith;
  hit = λ done k. match_command_two frame_start c d size encrypted done h ∙ ground arith;
  small = omega (arith, (two_letters c d size encrypted h).2);
}

EndsAt-one :
    (c d size : ℕ) (encrypted : Bool)
    → lookup_inbound (c ∷ []) ≡ some (size, encrypted)
    → EndsAt frame_start c d (c ∷ []) 1 1
EndsAt-one c d size encrypted h =
    let z : size ≡ 0 = (one_letter c size encrypted h).2 in
    record {
      quiet = λ done k. match_command_one frame_start c d size encrypted done h ∙ ground arith;
      hit = λ done k. match_command_one frame_start c d size encrypted done h ∙ ground arith;
      small = omega arith;
    }

-- The encrypted or plain part of a frame.
abbrev sealed : Bool → Command → List ℕ → List ℕ
sealed encrypted command payload =
    if encrypted
    then rc4 (payload ++ checksum (command ++ payload) ∷ [])
    else payload ++ checksum (command ++ payload) ∷ []

length-sealed :
    (encrypted : Bool) (command : Command) (payload : List ℕ)
    → length (sealed encrypted command payload) ≡ length payload + 1
length-sealed true command payload =
    length-rc4 _ ∙ (omega (arith, length-append payload (checksum (command ++ payload) ∷ [])))
length-sealed false command payload =
    omega (arith, length-append payload (checksum (command ++ payload) ∷ []))

opened :
    (encrypted : Bool) (command : Command) (payload : List ℕ)
    → (if encrypted
        then rc4 (sealed encrypted command payload)
        else sealed encrypted command payload)
      ≡ payload ++ checksum (command ++ payload) ∷ []
opened true command payload = rc4_twice _
opened false command payload = refl

emit-sealed_frame :
    (s : ℕ) (command : Command) (size : ℕ) (encrypted : Bool) (payload : List ℕ)
    → lookup_inbound command ≡ some (size, encrypted)
    → emit
        (s ∷ command ++ sealed encrypted command payload ++ frame_end ∷ [])
        command
        (length command)
      ≡ some (command, payload)
emit-sealed_frame s command size encrypted payload h =
    emit_sealed s frame_end command (sealed encrypted command payload) payload
      (omega (arith, length-sealed encrypted command payload))
      (rw (is_encrypted_lem command size encrypted h) (opened encrypted command payload))

no_empty : (size : ℕ) (encrypted : Bool) → ¬ (lookup_inbound [] ≡ some (size, encrypted))
unfolding lookup_inbound
no_empty size encrypted h = ground arith

no_long :
    (c d f : ℕ) (r : List ℕ) (size : ℕ) (encrypted : Bool)
    → ¬ (lookup_inbound (c ∷ d ∷ f ∷ r) ≡ some (size, encrypted))
unfolding lookup_inbound
no_long c d f r size encrypted h = ground arith

abbrev wire : Command → List ℕ → Bool → List ℕ
wire command payload encrypted =
    frame_start ∷ command ++ sealed encrypted command payload ++ frame_end ∷ []

abbrev Delivers : List ℕ → ℕ → ℕ → Arrival → List Arrival → Command → Type 0
Delivers payload t idle_since a rest command =
    feed (parser_at t idle_since []) (a ∷ rest)
    ≡ (parser_at t a.start_at [], (command, payload) ∷ [])

module _ (size : ℕ) (encrypted : Bool) (payload : List ℕ) (t idle_since : ℕ) (a x y : Arrival)
    (more : List Arrival) where
  deliver :
      (command : Command) (buf : List ℕ)
      → lookup_inbound command ≡ some (size, encrypted)
      → feed (parser_at t idle_since []) (a ∷ x ∷ y ∷ more)
        ≡ (parser_at t a.start_at [], append_option (emit buf command (length command)) [])
      → buf ≡ wire command payload encrypted
      → Delivers payload t idle_since a (x ∷ y ∷ more) command
  deliver command buf h e k =
      e
      ∙ ap (λ (o : Option (Command × List ℕ)). (parser_at t a.start_at [], append_option o []))
          (ap (λ (b : List ℕ). emit b command (length command)) k
            ∙ emit-sealed_frame frame_start command size encrypted payload h)

  complete_two :
      (c d : ℕ)
      → lookup_inbound (c ∷ d ∷ []) ≡ some (size, encrypted)
      → length payload ≡ size
      → bytes_of (a ∷ x ∷ y ∷ more) ≡ wire (c ∷ d ∷ []) payload encrypted
      → OnTime t a.start_at (x ∷ y ∷ more)
      → Delivers payload t idle_since a (x ∷ y ∷ more) (c ∷ d ∷ [])
  complete_two c d h k e o =
      let part : List ℕ = sealed encrypted (c ∷ d ∷ []) payload in
      let tail : bytes_of more ≡ part ++ frame_end ∷ [] = cc in
      let len : length more ≡ size + 2 = omega (
        arith,
        k,
        length-map more (λ b. b.byte),
        ap length tail,
        length-append part (frame_end ∷ []),
        length-sealed encrypted (c ∷ d ∷ []) payload,
      ) in
      deliver (c ∷ d ∷ []) _ h
        (feed_whole (EndsAt-two c d size encrypted h) t a.start_at idle_since a x y more part refl
          (cc) refl (cc) (cc) o tail len)
        (ap (λ (z : List ℕ). frame_start ∷ c ∷ d ∷ z) tail)

  complete_one :
      (c : ℕ) (part : List ℕ)
      → lookup_inbound (c ∷ []) ≡ some (size, encrypted)
      → part ≡ sealed encrypted (c ∷ []) payload
      → length part ≡ 1
      → bytes_of (a ∷ x ∷ y ∷ more) ≡ frame_start ∷ c ∷ part ++ frame_end ∷ []
      → OnTime t a.start_at (x ∷ y ∷ more)
      → Delivers payload t idle_since a (x ∷ y ∷ more) (c ∷ [])
  complete_one c [] h p k e o = absurd (omega arith)
  complete_one c (v ∷ w ∷ part) h p k e o = absurd (omega arith)
  complete_one c (v ∷ []) h p k e o =
      let tail : bytes_of more ≡ frame_end ∷ [] = cc in
      let len : length more ≡ 1 = omega (arith, length-map more (λ b. b.byte), ap length tail) in
      deliver (c ∷ []) _ h
        (feed_whole (EndsAt-one c v size encrypted h) t a.start_at idle_since a x y more [] refl
          (cc) refl (cc) (cc) o tail len)
        (ap (λ (z : List ℕ). frame_start ∷ c ∷ v ∷ z) tail
          ∙ ap (λ (z : List ℕ). frame_start ∷ c ∷ z ++ frame_end ∷ []) p)

-- What the machine sends for a command of the table, byte after byte within the timeout of its first
-- one, comes out of an idle parser as that command with its payload, once, and leaves it idle.
pub feed-build_frame :
    (t idle_since : ℕ) (command : Command) (size : ℕ) (encrypted : Bool) (payload : List ℕ)
    (a x y : Arrival) (more : List Arrival)
    → lookup_inbound command ≡ some (size, encrypted)
    → length payload ≡ size
    → bytes_of (a ∷ x ∷ y ∷ more) ≡ build_frame command (some payload) none encrypted
    → OnTime t a.start_at (x ∷ y ∷ more)
    → feed (parser_at t idle_since []) (a ∷ x ∷ y ∷ more)
      ≡ (parser_at t a.start_at [], (command, payload) ∷ [])
unfolding build_frame
feed-build_frame t idle_since [] size encrypted payload a x y more h k e o =
    absurd (no_empty size encrypted h)
feed-build_frame t idle_since (c ∷ []) size encrypted payload a x y more h k e o =
    complete_one size encrypted payload t idle_since a x y more c
      (sealed encrypted (c ∷ []) payload) h refl
      (omega
        (arith, k, length-sealed encrypted (c ∷ []) payload, (one_letter c size encrypted h).2))
      e o
feed-build_frame t idle_since (c ∷ d ∷ []) size encrypted payload a x y more h k e o =
    complete_two size encrypted payload t idle_since a x y more c d h k e o
feed-build_frame t idle_since (c ∷ d ∷ f ∷ r) size encrypted payload a x y more h k e o =
    absurd (no_long c d f r size encrypted h)
