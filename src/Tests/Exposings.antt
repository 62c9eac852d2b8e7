-- ===== src/Tests/Exposings.antt =====
-- The theorems on ExposedThings at concrete inputs.
use wot_py.Prelude.{
  ℕ, String, List, [], ◌∷◌, ◌++◌, Bool, true, false, Option, none, some, ◌==◌, ◌≡◌, ◌≢◌, ◌⊎◌, refl,
  sym, inl, inr, In, Result, ok, err, Error, key_error, if◌then◌else◌, get, values, ne-of-==,
}
use wot_py.Json.{null, integer}
use wot_py.Interaction.{Interaction, property_fragment, url_name, writable}
use wot_py.Thing.{Thing, new_thing}
use wot_py.Exposed.{
  ExposedThing, Emitted, new_exposed_thing, read_property, write_property, property_change_filter,
  on_property_change, filtered,
}
use wot_py.Exposed.WellFormed.{IsWellFormed, new_exposed_thing-IsWellFormed}
use wot_py.Exposed.Operations.{writes_property, perform, perform-IsWellFormed}
use wot_py.Exposed.Values.{write_property-err, write_property-ok, IsRefused, IsWritten}
use wot_py.Exposed.Reading.{read_property-write_property}
use wot_py.Exposed.Streams.{on_property_change-url_name}
use wot_py.Tests.Lab.{lab, temp, lab_thing, lab_thing-made}

abbrev exposed : ExposedThing
unfolding new_exposed_thing
exposed = new_exposed_thing lab_thing

exposed-IsWellFormed : IsWellFormed lab exposed
unfolding exposed new_exposed_thing
exposed-IsWellFormed =
    new_exposed_thing-IsWellFormed lab 1 "urn:lab" "Lab" none
      (("Temp", property_fragment false true) ∷ []) [] [] 10 lab_thing lab_thing-made

abbrev written : ExposedThing
written = (write_property lab "Temp" (integer 20) exposed).0

temp-written : write_property lab "Temp" (integer 20) exposed ≡ (written, none)
unfolding write_property get exposed writable wot_py.Thing.find_interaction wot_py.Prelude.next
    wot_py.Thing.interactions wot_py.Thing.is_match
temp-written = refl

temp-got : get "Temp" exposed.thing.properties ≡ some (temp 1)
unfolding get exposed
temp-got = refl

perform-IsWellFormed_example :
    IsWellFormed lab (perform lab (writes_property "Temp" (integer 20)) exposed)
perform-IsWellFormed_example =
    perform-IsWellFormed lab (writes_property "Temp" (integer 20)) exposed exposed-IsWellFormed

other-refused : write_property lab "temp" null exposed ≡ (exposed, some key_error)
unfolding write_property get exposed
other-refused = refl

write_property-err_example : (exposed ≡ exposed) × IsRefused lab "temp" null exposed key_error
write_property-err_example =
    write_property-err lab "temp" null exposed exposed key_error exposed-IsWellFormed other-refused

write_property-ok_example :
    (p : Interaction) × (get "Temp" exposed.thing.properties ≡ some p)
    × (writable p ≡ ok true)
    × IsWritten lab "Temp" (integer 20) p exposed written
write_property-ok_example =
    write_property-ok lab "Temp" (integer 20) exposed written exposed-IsWellFormed temp-written

read_property-write_property_example :
    (y : ExposedThing) × (write_property lab "Temp" (integer 20) exposed ≡ (y, none))
    × ((q : String)
        → read_property lab q y
          ≡ (if q == "Temp" then ok (integer 20) else read_property lab q exposed))
unfolding writable exposed
read_property-write_property_example =
    read_property-write_property lab "Temp" (integer 20) (temp 1) exposed exposed-IsWellFormed
      temp-got refl refl refl

temp-ne : (temp 1).name ≢ url_name lab (temp 1)
unfolding url_name wot_py.Tests.Lab.lab_slugify
temp-ne = ne-of-== "Temp" "temp" refl

temp-there : In (temp 1) (wot_py.Thing.interactions exposed.thing)
unfolding wot_py.Thing.interactions exposed
temp-there = inl refl

on_property_change-url_name_example :
    (on_property_change lab (url_name lab (temp 1)) exposed
      ≡ ok (filtered (property_change_filter (url_name lab (temp 1)))))
    × ((e : Emitted) × (written.events_stream ≡ exposed.events_stream ++ e ∷ [])
        × (property_change_filter (url_name lab (temp 1)) e ≡ ok false))
unfolding wot_py.Interaction.observable
on_property_change-url_name_example =
    on_property_change-url_name lab (temp 1) "Temp" (integer 20) exposed written
      exposed-IsWellFormed temp-there refl temp-ne temp-written

slugs : lab.slugify "Temp" ≡ url_name lab (temp 1)
unfolding url_name
slugs = refl
