-- ===== src/Tests/Things.antt =====
-- The theorems on names, Things, forms and groups at concrete inputs.
use wot_py.Prelude.{
  ℕ, String, List, [], ◌∷◌, ◌++◌, Bool, true, false, Option, none, some, ◌≡◌, ◌≢◌, ◌↔◌, refl, sym,
  ap, ◌∙◌, subst, inl, inr, In, All, arith, ok, err, Result, if◌then◌else◌, values,
}
use wot_py.Platform.{http, websockets, single}
use wot_py.Validation.{is_valid_safe_name, codes, is_safe_char}
use wot_py.Validation.SafeName.{is_valid_safe_name_iff, IsSafeTail}
use wot_py.Interaction.{
  Form, Interaction, Fragment, property_fragment, action_fragment, add_form, remove_form, form_id,
}
use wot_py.Interaction.Forms.{add_form_iff}
use wot_py.Thing.{
  Thing, new_thing, interactions, add_interaction, remove_interaction, find_interaction, is_match,
}
use wot_py.Thing.Unique.{IsFormed}
use wot_py.Thing.Changes.{
  add_interaction-IsFormed, find_interaction-add_interaction, find_interaction-remove_interaction,
}
use wot_py.Thing.Build.{new_thing-IsFormed}
use wot_py.ThingSet.{ThingSet, is_thing_match}
use wot_py.ThingSet.Lookup.{IsUnambiguous}
use wot_py.Server.{Server, build_forms}
use wot_py.Server.Forms.{AreBuilt, build_forms-AreBuilt, build_forms_ok}
use wot_py.Tests.Lab.{lab, temp, lab_thing, lab_thing-made, lab_heap}

-- The Thing before its property, and with an action.
abbrev bare_thing : Thing
bare_thing = record lab_thing { properties = [] }

bare_thing-made : new_thing lab 1 "urn:lab" "Lab" none [] [] [] 11 ≡ ok bare_thing
unfolding new_thing
bare_thing-made = refl

bare_thing-IsFormed : IsFormed lab bare_thing
bare_thing-IsFormed =
    new_thing-IsFormed lab 1 "urn:lab" "Lab" none [] [] [] 11 bare_thing bare_thing-made

lab_thing-IsFormed : IsFormed lab lab_thing
lab_thing-IsFormed =
    new_thing-IsFormed lab 1 "urn:lab" "Lab" none (("Temp", property_fragment false true) ∷ []) []
      [] 10 lab_thing lab_thing-made

new_thing-IsFormed_example : IsFormed lab lab_thing
new_thing-IsFormed_example =
    new_thing-IsFormed lab 1 "urn:lab" "Lab" none (("Temp", property_fragment false true) ∷ []) []
      [] 10 lab_thing lab_thing-made

temp-added : add_interaction lab (temp 1) bare_thing ≡ ok lab_thing
unfolding add_interaction find_interaction wot_py.Prelude.next interactions wot_py.Thing.store
    wot_py.Interaction.interaction_type wot_py.Prelude.put
temp-added = refl

add_interaction-IsFormed_example : IsFormed lab lab_thing
add_interaction-IsFormed_example =
    add_interaction-IsFormed lab (temp 1) bare_thing lab_thing bare_thing-IsFormed temp-added

-- The added property answers to its URL name.
find_interaction-add_interaction_example : find_interaction lab "temp" lab_thing ≡ (
    if is_match lab "temp" (temp 1) then some (temp 1) else find_interaction lab "temp" bare_thing)
find_interaction-add_interaction_example =
    find_interaction-add_interaction lab (temp 1) bare_thing lab_thing "temp" bare_thing-IsFormed
      temp-added

temp-found : find_interaction lab "temp" lab_thing ≡ some (temp 1)
unfolding find_interaction wot_py.Prelude.next interactions is_match wot_py.Tests.Lab.lab_slugify
temp-found = refl

-- Removed by its URL name, the property is gone under its name too.
find_interaction-remove_interaction_example :
    find_interaction lab "Temp" (remove_interaction lab "temp" lab_thing)
    ≡ (if is_match lab "Temp" (temp 1) then none else find_interaction lab "Temp" lab_thing)
find_interaction-remove_interaction_example =
    find_interaction-remove_interaction lab "temp" (temp 1) lab_thing "Temp" lab_thing-IsFormed
      temp-found

abbrev form : Form
form = record {
  interaction = 10;
  protocol = http;
  href = "http://lab/temp";
  content_type = "application/json";
  op = single "readproperty";
}

abbrev formed : Interaction
formed = record (temp 1) { forms = form ∷ [] }

form-added : add_form lab form (temp 1) ≡ ok formed
unfolding add_form wot_py.Prelude.contains
form-added = refl

add_form_iff_example : (add_form lab form (temp 1) ≡ ok formed) ↔ (
    (form.interaction ≡ (temp 1).ident)
    × All (λ g. form_id lab g ≢ form_id lab form) []
    × (formed ≡ formed))
add_form_iff_example = add_form_iff lab form (temp 1) formed

is_valid_safe_name_iff_example :
    (is_valid_safe_name "Temp" ≡ true)
    ↔ ((c : ℕ) × (ds : List ℕ) × (is_safe_char c ≡ true) × (codes "Temp" ≡ c ∷ ds) × IsSafeTail ds)
is_valid_safe_name_iff_example = is_valid_safe_name_iff "Temp"

abbrev pub group : ThingSet
group = ("urn:lab", 1) ∷ []

-- A group of one is unambiguous.
pub group-IsUnambiguous : IsUnambiguous lab lab_heap group
group-IsUnambiguous q r s (inl e) (inl f) t u = e ∙ sym f
group-IsUnambiguous q r s (inl e) (inr f) t u = absurd f
group-IsUnambiguous q r s (inr e) m t u = absurd e

url_name-matches : is_thing_match lab lab_heap "lab-urn-lab" 1 ≡ true
unfolding is_thing_match wot_py.Thing.thing_url_name wot_py.Tests.Lab.lab_slugify
url_name-matches = refl

abbrev pub ws_server : Server
ws_server = record {
  protocol = websockets;
  secure = false;
  port = "81";
  broker_url = "";
  servient_id = none;
  things = group;
}

ws_forms : (fs : List Form) × (build_forms lab lab_heap ws_server "lab.org" (temp 1) ≡ ok fs)
ws_forms = build_forms_ok lab lab_heap ws_server "lab.org" (temp 1) (inl refl) (λ x m. refl)

build_forms-AreBuilt_example : AreBuilt websockets (temp 1) ws_forms.0
build_forms-AreBuilt_example =
    build_forms-AreBuilt lab lab_heap ws_server "lab.org" (temp 1) ws_forms.0 ws_forms.1
