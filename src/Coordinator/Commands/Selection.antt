-- ===== src/Coordinator/Commands/Selection.antt =====
-- What a selection changes, whatever the machine answers.
use hass_melitta_barista_ts.Prelude.{ℕ, ◌≡◌, inl, inr, refl, ◌∙◌, Bool-cases, Option, none, some}
use hass_melitta_barista_ts.Prelude.Int.{pos}
use hass_melitta_barista_ts.Const.Recipes.{RecipeId, recipe_id_enum}
use hass_melitta_barista_ts.Const.DirectKeys.{DirectKeyCategory}
use hass_melitta_barista_ts.Protocol.Recipe.{MachineRecipe}
use hass_melitta_barista_ts.Machine.Reads.{read_recipe}
use hass_melitta_barista_ts.Machine.Session.{M}
use hass_melitta_barista_ts.Client.Connect.Outcomes.{Outcome-cases}
use hass_melitta_barista_ts.Client.Connect.{World, Outcome, done, failed}
use hass_melitta_barista_ts.Coordinator.State.{
  Coordinator, C, run, absorb, absorbed, ◌>>=◌, is_communication_error,
}
use hass_melitta_barista_ts.Coordinator.Commands.{
  seed, seed_from_slot, async_select_drink, async_select_profile, async_select_profile_drink,
}

-- What a read of a stored recipe leaves as it was.
pub record Keeps (s t : Coordinator) : Type 0 where
  pub drink : t.selected_drink ≡ s.selected_drink
  pub profile : t.selected_profile ≡ s.selected_profile
  pub profile_drink : t.selected_profile_drink ≡ s.selected_profile_drink
  pub content : t.content ≡ s.content

Keeps-refl : (s : Coordinator) → Keeps s s
Keeps-refl s = record { drink = refl; profile = refl; profile_drink = refl; content = refl }

Keeps-trans : {s t u : Coordinator} → Keeps s t → Keeps t u → Keeps s u
Keeps-trans k l = record {
  drink = l.drink ∙ k.drink;
  profile = l.profile ∙ k.profile;
  profile_drink = l.profile_drink ∙ k.profile_drink;
  content = l.content ∙ k.content;
}

-- An action that keeps all that, from wherever it starts.
abbrev Keeping : {A : Type 0} → C A → Type 0
Keeping action = (s : Coordinator) → Keeps s (action s).1

absorbed-Keeps :
    {A : Type 0} (r : Outcome A) (s t : Coordinator) → Keeps s t → Keeps s (absorbed r t).1
absorbed-Keeps (done a) s t k = k
absorbed-Keeps (failed f) s t k = elim (Bool-cases (is_communication_error f.exception)) [
  | inl e ↦ rw e k
  | inr e ↦ rw e k
]

>>=-Keeping :
    {A B : Type 0} (action : C A) (next : A → C B)
    → Keeping action
    → ((a : A) → Keeping (next a))
    → Keeping (action >>= next)
>>=-Keeping action next k l s = elim (Outcome-cases (action s).0) [
  | inl (a, e) ↦ rw e (Keeps-trans (k s) (l a (action s).1))
  | inr (f, e) ↦ rw e (k s)
]

seed-Keeping : (stored : Option MachineRecipe) → Keeping (seed stored)
seed-Keeping none s = Keeps-refl s
seed-Keeping (some recipe) s = record {
  drink = refl;
  profile = refl;
  profile_drink = refl;
  content = refl;
}

module _ (world : World) where
  read-Keeping : {A : Type 0} (action : M A) → Keeping (absorb (run world action))
  read-Keeping action s =
      absorbed-Keeps (run world action s).0 s (run world action s).1
        (record { drink = refl; profile = refl; profile_drink = refl; content = refl })

  seed_from_slot-Keeping : (recipe_id : ℕ) → Keeping (seed_from_slot world recipe_id)
  unfolding seed_from_slot
  seed_from_slot-Keeping recipe_id =
      >>=-Keeping (absorb (run world (read_recipe (pos recipe_id)))) _
        (read-Keeping (read_recipe (pos recipe_id)))
        (λ stored.
          >>=-Keeping (seed stored) _ (seed-Keeping stored)
            (λ u s. record { drink = refl; profile = refl; profile_drink = refl; content = refl }))

  -- Whatever the machine answers, and also when the selection raises: the drink, the profile or the
  -- direct key that was selected is, and nothing else that is selected or was read has changed.
  pub selection_lem :
      (recipe : RecipeId) (profile : ℕ) (category : DirectKeyCategory) (s : Coordinator)
      → Keeps (record s { selected_drink = recipe }) (async_select_drink world recipe s).1
        × Keeps (record s { selected_profile = profile }) (async_select_profile world profile s).1
        × Keeps
            (record s { selected_profile_drink = category })
            (async_select_profile_drink world category s).1
  unfolding async_select_drink async_select_profile async_select_profile_drink
  selection_lem recipe profile category s =
      (seed_from_slot-Keeping _ _, seed_from_slot-Keeping _ _, seed_from_slot-Keeping _ _)
