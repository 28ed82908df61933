-- ===== src/Machine/Brew/Sequence.antt =====
-- What a brew sends, and in which order.
use mathlib.Core.List.{append_assoc}
use hass_melitta_barista_ts.Prelude.{
  ℕ, suc, ◌/◌, ◌%◌, ◌≤◌, ◌<◌, ◌≡◌, refl, sym, ap, ◌∙◌, inl, inr, Bool, false, List, [], ◌∷◌, ◌++◌,
  Option, some, length, take, arith,
}
use hass_melitta_barista_ts.Prelude.Int.{pos}
use hass_melitta_barista_ts.Errors.{Exception, Result, ok, err}
use hass_melitta_barista_ts.Const.Framing.{
  Command, cmd_read_recipe, cmd_write_recipe, cmd_write_alpha, cmd_start_process,
}
use hass_melitta_barista_ts.Protocol.Recipe.{MachineRecipe, RecipeComponent}
use hass_melitta_barista_ts.Protocol.Words.{pack_i16, pack_u16}
use hass_melitta_barista_ts.Machine.Session.{Session, M, ◌>>=◌, ◌>>◌, reply, sleep}
use hass_melitta_barista_ts.Machine.Session.Laws.{
  Result-cases, bind-ok, bind-err, sent-request, sent-request_ack, sent-sleep,
}
use hass_melitta_barista_ts.Machine.Reads.{pack_id, read_recipe}
use hass_melitta_barista_ts.Machine.Writes.{
  name_field, recipe_payload, process_payload, write_recipe, write_alphanumeric, start_process,
}
use hass_melitta_barista_ts.Machine.Overrides.{Overrides, apply_overrides, recipe_key_for_type}
use hass_melitta_barista_ts.Machine.Brew.{name_or_default, hopper_only, brew_recipe, brew}

abbrev pub Request : Type 0
Request = Command × List ℕ

-- An action that sends these requests in this order, and stops at one that fails: what it has sent is a
-- part of them from the front, and all of them if it returns.
pub record Sends {A : Type 0} (steps : List Request) (m : M A) (s : Session) : Type 0 where
  pub count : ℕ
  pub bounded : count ≤ length steps
  pub sent : (m s).1.sent ≡ s.sent ++ take count steps
  pub all : (a : A) → (m s).0 ≡ ok a → count ≡ length steps

Sends-one :
    {A : Type 0} (m : M A) (s : Session) (x : Request)
    → (m s).1.sent ≡ s.sent ++ x ∷ []
    → Sends (x ∷ []) m s
Sends-one m s x e = record { count = 1; bounded = omega arith; sent = e; all = λ a h. omega arith }

module _ {A B : Type 0} (m : M A) (f : A → M B) (s : Session) (steps : List Request) where
  -- A step that sends one request, and then the rest.
  Sends-step :
      (x : Request)
      → (m s).1.sent ≡ s.sent ++ x ∷ []
      → ((a : A) → Sends steps (f a) (m s).1)
      → Sends (x ∷ steps) (m >>= f) s
  Sends-step x e rest = elim (Result-cases (m s).0) [
    | inr (er, q) ↦ record {
      count = 1;
      bounded = omega arith;
      sent = ap (λ (p : Result B × Session). p.1.sent) (bind-err m f s q) ∙ e;
      all = λ a h. absurd (ground (arith, bind-err m f s q));
    }
    | inl (a, q) ↦
        let r = rest a in
        record {
          count = suc r.count;
          bounded = omega (arith, r.bounded);
          sent =
              ap (λ (p : Result B × Session). p.1.sent) (bind-ok m f s q)
              ∙ r.sent
              ∙ ap (λ (l : List Request). l ++ take r.count steps) e
              ∙ append_assoc s.sent (x ∷ []) (take r.count steps);
          all = λ b h.
              ap suc (r.all b (ap (λ (p : Result B × Session). p.0) (sym (bind-ok m f s q)) ∙ h));
        }
  ]

  -- A step that always returns and sends nothing.
  Sends-quiet :
      (a : A)
      → (m s).0 ≡ ok a
      → (m s).1.sent ≡ s.sent
      → Sends steps (f a) (m s).1
      → Sends steps (m >>= f) s
  Sends-quiet a q e r = record {
    count = r.count;
    bounded = r.bounded;
    sent =
        ap (λ (p : Result B × Session). p.1.sent) (bind-ok m f s q)
        ∙ r.sent
        ∙ ap (λ (l : List Request). l ++ take r.count steps) e;
    all = λ b h. r.all b (ap (λ (p : Result B × Session). p.0) (sym (bind-ok m f s q)) ∙ h);
  }

returns-sleep : (s : Session) → (sleep s).0 ≡ ok tt
unfolding sleep
returns-sleep s = refl

sent-write_recipe :
    (t : ℕ) (c d : RecipeComponent) (key : Option ℕ) (s : Session)
    → (write_recipe (pos 400) t c d key s).1.sent
      ≡ s.sent ++ (cmd_write_recipe, recipe_payload (1 ∷ 144 ∷ []) t c d key) ∷ []
unfolding write_recipe pack_id pack_i16
sent-write_recipe t c d key s =
    sent-request_ack cmd_write_recipe (recipe_payload (1 ∷ 144 ∷ []) t c d key) s

sent-write_alphanumeric :
    (text : List ℕ) (s : Session)
    → (write_alphanumeric (pos 401) text s).1.sent
      ≡ s.sent ++ (cmd_write_alpha, 1 ∷ 145 ∷ name_field text) ∷ []
unfolding write_alphanumeric pack_id pack_i16
sent-write_alphanumeric text s = sent-request_ack cmd_write_alpha (1 ∷ 145 ∷ name_field text) s

sent-start_process :
    (two_cups : Bool) (s : Session)
    → (start_process (pos 4) two_cups s).1.sent
      ≡ s.sent ++ (cmd_start_process, process_payload (0 ∷ 4 ∷ []) two_cups) ∷ []
unfolding start_process pack_u16
sent-start_process two_cups s =
    sent-request_ack cmd_start_process (process_payload (0 ∷ 4 ∷ []) two_cups) s

sent-read_recipe :
    (id : ℕ) (s : Session)
    → id < 32768
    → (read_recipe (pos id) s).1.sent ≡ s.sent ++ (cmd_read_recipe, id / 256 ∷ id % 256 ∷ []) ∷ []
unfolding read_recipe pack_id pack_i16
sent-read_recipe id s h =
    ground (
      arith,
      sent-request cmd_read_recipe (id / 256 ∷ id % 256 ∷ []) (reply cmd_read_recipe) false s,
    )

-- The last three requests of a brew of this recipe.
pub brew_steps : MachineRecipe → ℕ → Option (List ℕ) → Bool → Overrides → List Request
brew_steps recipe recipe_id name two_cups overrides =
    (
      cmd_write_recipe,
      recipe_payload (1 ∷ 144 ∷ []) recipe.recipe_type (apply_overrides recipe.component1 overrides)
          (apply_overrides recipe.component2 (hopper_only overrides))
          (some (recipe_key_for_type recipe.recipe_type)),
    )
    ∷ (cmd_write_alpha, 1 ∷ 145 ∷ name_field (name_or_default name recipe_id))
    ∷ (cmd_start_process, process_payload (0 ∷ 4 ∷ []) two_cups)
    ∷ []

module _ (recipe : MachineRecipe) (recipe_id : ℕ) (name : Option (List ℕ)) (two_cups : Bool)
    (overrides : Overrides) where
  -- The parts of `brew_recipe`, from its end.
  abbrev start : M (Unit {0})
  start = start_process (pos 4) two_cups

  abbrev label : M (Unit {0})
  label = write_alphanumeric (pos 401) (name_or_default name recipe_id)

  abbrev fill : M (Unit {0})
  fill =
      write_recipe (pos 400) recipe.recipe_type (apply_overrides recipe.component1 overrides)
        (apply_overrides recipe.component2 (hopper_only overrides))
        (some (recipe_key_for_type recipe.recipe_type))

  abbrev start_step : List Request
  start_step = (cmd_start_process, process_payload (0 ∷ 4 ∷ []) two_cups) ∷ []

  abbrev label_step : List Request
  label_step = (cmd_write_alpha, 1 ∷ 145 ∷ name_field (name_or_default name recipe_id)) ∷ start_step

  sleep-start-Sends : (s : Session) → Sends start_step (sleep >> start) s
  sleep-start-Sends s =
      Sends-quiet sleep (λ _. start) s start_step tt (returns-sleep s) (sent-sleep s)
        (Sends-one start (sleep s).1 _ (sent-start_process two_cups (sleep s).1))

  label-Sends : (s : Session) → Sends label_step (label >> (sleep >> start)) s
  label-Sends s =
      Sends-step label (λ _. sleep >> start) s start_step _
        (sent-write_alphanumeric (name_or_default name recipe_id) s)
        (λ _. sleep-start-Sends (label s).1)

  sleep-label-Sends : (s : Session) → Sends label_step (sleep >> (label >> (sleep >> start))) s
  sleep-label-Sends s =
      Sends-quiet sleep (λ _. label >> (sleep >> start)) s label_step tt (returns-sleep s)
        (sent-sleep s) (label-Sends (sleep s).1)

  brew_recipe-Sends :
      (s : Session)
      → Sends
          (brew_steps recipe recipe_id name two_cups overrides)
          (brew_recipe recipe_id name two_cups overrides recipe)
          s
  unfolding brew_recipe brew_steps
  brew_recipe-Sends s =
      Sends-step fill (λ _. sleep >> (label >> (sleep >> start))) s label_step _
        (sent-write_recipe recipe.recipe_type (apply_overrides recipe.component1 overrides)
          (apply_overrides recipe.component2 (hopper_only overrides))
          (some (recipe_key_for_type recipe.recipe_type)) s)
        (λ _. sleep-label-Sends (fill s).1)

  -- A brew of a recipe id below 32768 whose recipe could be read replays the vendor's sequence:
  -- the request of the recipe, then the recipe with the overrides into the scratch slot, then the
  -- name, then the start. What it sends is these four requests from the front, and it returns only
  -- if it sent all of them.
  pub brew-Sends :
      (s t : Session)
      → recipe_id < 32768
      → read_recipe (pos recipe_id) s ≡ (ok recipe, t)
      → (count : ℕ) × (count ≤ 4)
        × ((brew recipe_id name two_cups overrides s).1.sent
            ≡ s.sent
              ++ take count (
                  (cmd_read_recipe, recipe_id / 256 ∷ recipe_id % 256 ∷ [])
                  ∷ brew_steps recipe recipe_id name two_cups overrides))
        × ((brew recipe_id name two_cups overrides s).0 ≡ ok tt → count ≡ 4)
  unfolding brew brew_steps
  brew-Sends s t small h =
      let r = brew_recipe-Sends t in
      let first : t.sent
          ≡ s.sent ++ (cmd_read_recipe, recipe_id / 256 ∷ recipe_id % 256 ∷ []) ∷ [] =
        ap (λ (p : Result MachineRecipe × Session). p.1.sent) (sym h)
        ∙ sent-read_recipe recipe_id s small in
      (
        suc r.count,
        omega (arith, r.bounded),
        rw h (
            r.sent
            ∙ ap
                (λ (l : List Request).
                  l ++ take r.count (brew_steps recipe recipe_id name two_cups overrides))
                first
            ∙ append_assoc s.sent _
                (take r.count (brew_steps recipe recipe_id name two_cups overrides))),
        λ e. ap suc (r.all tt (rw h at e)),
      )

-- A brew of a recipe id below 32768 whose recipe could not be read has sent only the request of
-- it, and raises the same exception.
pub brew_unread :
    (recipe_id : ℕ) (name : Option (List ℕ)) (two_cups : Bool) (overrides : Overrides)
    (s t : Session) (e : Exception)
    → recipe_id < 32768
    → read_recipe (pos recipe_id) s ≡ (err e, t)
    → (brew recipe_id name two_cups overrides s ≡ (err e, t))
      × (t.sent ≡ s.sent ++ (cmd_read_recipe, recipe_id / 256 ∷ recipe_id % 256 ∷ []) ∷ [])
unfolding brew
brew_unread recipe_id name two_cups overrides s t e small h = (
  rw h refl,
  ap (λ (p : Result MachineRecipe × Session). p.1.sent) (sym h)
      ∙ sent-read_recipe recipe_id s small,
)
