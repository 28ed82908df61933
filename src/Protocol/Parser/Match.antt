-- ===== src/Protocol/Parser/Match.antt =====
-- Where the parser finds the end of a frame.
use hass_melitta_barista_ts.Prelude.{
  ℕ, ◌+◌, ◌≤◌, ◌<◌, ◌≡◌, refl, ◌==◌, if◌then◌else◌, List, [], ◌∷◌, none, some, Bool, length, arith,
  ◌≢◌, Option-cases, inl, inr, ◌++◌,
}
use hass_melitta_barista_ts.Const.Framing.{Command, lookup_inbound}
use hass_melitta_barista_ts.Protocol.Parser.{match_command, match_length, ascii_or_replacement}

pub two_letters :
    (c d size : ℕ) (encrypted : Bool)
    → lookup_inbound (c ∷ d ∷ []) ≡ some (size, encrypted)
    → (c ≡ b'H') × (d < 128) × (size ≤ 66)
unfolding lookup_inbound
two_letters c d size encrypted h = (ground arith, ground arith, ground arith)

pub one_letter :
    (c size : ℕ) (encrypted : Bool)
    → lookup_inbound (c ∷ []) ≡ some (size, encrypted)
    → (c ≢ b'H') × (c < 128) × (size ≡ 0)
unfolding lookup_inbound
one_letter c size encrypted h = (ground arith, ground arith, ground arith)

lone_h : lookup_inbound (b'H' ∷ []) ≡ none
unfolding lookup_inbound
lone_h = refl

-- A buffer that starts with a two-letter command ends a frame at one length only.
pub match_command_two :
    (s c d size : ℕ) (encrypted : Bool) (rest : List ℕ)
    → lookup_inbound (c ∷ d ∷ []) ≡ some (size, encrypted)
    → match_command (s ∷ c ∷ d ∷ rest)
      ≡ (if length rest == size + 2 then some (c ∷ d ∷ [], 2) else none)
unfolding match_command
match_command_two s c d size encrypted rest h =
    ground (arith, two_letters c d size encrypted h, lone_h)

-- So does one that starts with a one-letter command.
pub match_command_one :
    (s c d size : ℕ) (encrypted : Bool) (rest : List ℕ)
    → lookup_inbound (c ∷ []) ≡ some (size, encrypted)
    → match_command (s ∷ c ∷ d ∷ rest)
      ≡ (if length rest + 1 == size + 2 then some (c ∷ [], 1) else none)
unfolding match_command
match_command_one s c d size encrypted rest h =
    elim (Option-cases (lookup_inbound (c ∷ ascii_or_replacement d ∷ []))) [
      | inl e ↦ ground (arith, one_letter c size encrypted h)
      | inr ((n, b), e) ↦ absurd ((one_letter c size encrypted h).0 (two_letters c _ n b e).0)
    ]

-- What a found end of frame says of the buffer.
pub record Matched (buffer : List ℕ) (command : Command) (word_length : ℕ) : Type 0 where
  pub size : ℕ
  pub encrypted : Bool
  pub found : lookup_inbound command ≡ some (size, encrypted)
  pub word : length command ≡ word_length
  pub first : ℕ
  pub rest : List ℕ
  pub split : buffer ≡ first ∷ command ++ rest
  pub sized : length rest ≡ size + 2

match_length-some :
    (w v : Command) (m n k : ℕ)
    → match_length w m k ≡ some (v, n)
    → (size : ℕ) × (encrypted : Bool) × (lookup_inbound w ≡ some (size, encrypted))
      × (v ≡ w)
      × (n ≡ m)
      × (k ≡ m + size + 3)
match_length-some w v m n k h = elim (Option-cases (lookup_inbound w)) [
  | inl e ↦ absurd (ground arith)
  | inr ((size, b), e) ↦ (size, b, e, ground arith, ground arith, ground arith)
]

plain_letter : (b : ℕ) → ascii_or_replacement b < 128 → ascii_or_replacement b ≡ b
plain_letter b h = ground arith

from_two :
    (s c d : ℕ) (xs : List ℕ) (command : Command) (n : ℕ)
    → match_length
        (ascii_or_replacement c ∷ ascii_or_replacement d ∷ [])
        2
        (length (s ∷ c ∷ d ∷ xs))
      ≡ some (command, n)
    → Matched (s ∷ c ∷ d ∷ xs) command n
from_two s c d xs command n h =
    let (size, b, found, w, k, len) = match_length-some _ command 2 n _ h in
    let (hc, hd, _) = two_letters _ _ size b found in
    let ec : ascii_or_replacement c ≡ c = plain_letter c (omega (arith)) in
    let ed : ascii_or_replacement d ≡ d = plain_letter d hd in
    record {
      size = size;
      encrypted = b;
      found = rw w found;
      word = cc;
      first = s;
      rest = xs;
      split = cc;
      sized = omega arith;
    }

from_one :
    (s c d : ℕ) (xs : List ℕ) (command : Command) (n : ℕ)
    → match_length (ascii_or_replacement c ∷ []) 1 (length (s ∷ c ∷ d ∷ xs)) ≡ some (command, n)
    → Matched (s ∷ c ∷ d ∷ xs) command n
from_one s c d xs command n h =
    let (size, b, found, w, k, len) = match_length-some _ command 1 n _ h in
    let (_, hc, _) = one_letter _ size b found in
    let ec : ascii_or_replacement c ≡ c = plain_letter c hc in
    record {
      size = size;
      encrypted = b;
      found = rw w found;
      word = cc;
      first = s;
      rest = d ∷ xs;
      split = cc;
      sized = omega arith;
    }

pub match_command-Matched :
    (s c d : ℕ) (xs : List ℕ) (command : Command) (n : ℕ)
    → match_command (s ∷ c ∷ d ∷ xs) ≡ some (command, n)
    → Matched (s ∷ c ∷ d ∷ xs) command n
unfolding match_command
match_command-Matched s c d xs command n h =
    elim (Option-cases (
      match_length (ascii_or_replacement c ∷ ascii_or_replacement d ∷ []) 2
        (length (s ∷ c ∷ d ∷ xs)))) [
          | inl e ↦ from_one s c d xs command n (ground arith)
          | inr ((w, m), e) ↦ from_two s c d xs command n (ground arith)
        ]
