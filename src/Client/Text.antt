-- ===== src/Client/Text.antt =====
-- Texts as client.py uses them: lists of code points. `str.lower` is given for ASCII.
use Prim.Native.Char.{code}
use Prim.Native.String.{String}
use hass_melitta_barista_ts.Prelude.{
  ℕ, ◌+◌, Bool, true, false, ltb, ◌==◌, if◌then◌else◌, List, [], ◌∷◌, ◌&&◌, ◌||◌,
}

abbrev pub Text : Type 0
Text = List ℕ

abbrev pub text : String → Text
text String.[] = []
text (String.◌∷◌ c s) = code c ∷ text s

abbrev pub lower_letter : ℕ → ℕ
lower_letter c = if ltb 64 c && ltb c 91 then c + 32 else c

unfoldable pub lower : Text → Text
lower [] = []
lower (c ∷ cs) = lower_letter c ∷ lower cs

pub starts_with : Text → Text → Bool
starts_with [] t = true
starts_with (c ∷ cs) [] = false
starts_with (c ∷ cs) (d ∷ ds) = c == d && starts_with cs ds

-- `part in whole`
unfoldable pub contains : Text → Text → Bool
unfolding starts_with
contains part [] = starts_with part []
contains part (c ∷ cs) = starts_with part (c ∷ cs) || contains part cs

abbrev cons_first : ℕ → List Text → List Text
cons_first c [] = (c ∷ []) ∷ []
cons_first c (part ∷ parts) = (c ∷ part) ∷ parts

-- `whole.split(separator)`: at least one part.
unfoldable pub split : ℕ → Text → List Text
split separator [] = [] ∷ []
split separator (c ∷ cs) =
    let parts = split separator cs in if c == separator then [] ∷ parts else cons_first c parts

-- The ASCII white space.
abbrev is_space : ℕ → Bool
is_space c = ltb 8 c && ltb c 14 || ltb 27 c && ltb c 33

abbrev drop_spaces : Text → Text
drop_spaces [] = []
drop_spaces (c ∷ cs) = let rest = drop_spaces cs in if is_space c then rest else c ∷ cs

abbrev end_of : ℕ → Text → Text
end_of c [] = if is_space c then [] else c ∷ []
end_of c (d ∷ ds) = c ∷ d ∷ ds

abbrev drop_last_spaces : Text → Text
drop_last_spaces [] = []
drop_last_spaces (c ∷ cs) = end_of c (drop_last_spaces cs)

-- `str.strip`
pub strip : Text → Text
strip t = drop_last_spaces (drop_spaces t)
