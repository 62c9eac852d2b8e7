-- ===== src/Tests/Servients.antt =====
-- The theorems on servients that serve Things, at concrete inputs.
use wot_py.Prelude.{
  ℕ, String, List, [], ◌∷◌, Bool, true, false, not, ◌==◌, Option, none, some, ◌≡◌, ◌≢◌, ◌↔◌, refl,
  sym, ap, ◌∙◌, inl, inr, In, All, arith, ok, err, Result, values, filter, ne-of-==,
}
use wot_py.Interaction.{Interaction}
use wot_py.Thing.{interactions, thing_url_name}
use wot_py.ThingSet.{Heap, ThingSet}
use wot_py.Server.{Server}
use wot_py.Servient.{
  Servient, no_error, get_exposed_thing, enable_exposed_thing, disable_exposed_thing,
  remove_exposed_thing, regenerate_thing,
}
use wot_py.Servient.Regenerate.Things.{map_thing}
use wot_py.Servient.Regenerate.Server.{IsPlaced, regenerated, regenerate_thing_lem}
use wot_py.Servient.Regenerate.Heap.{AreSimilar}
use wot_py.Servient.Consistent.{IsConsistent, IsServed, enable_exposed_thing_lem}
use wot_py.Servient.Consistent.Changes.{disable_exposed_thing_lem}
use wot_py.Servient.Consistent.Removal.{remove_exposed_thing_lem, remove_exposed_thing-url_name}
use wot_py.Tests.Lab.{lab, lab-Separates, temp, lab_thing, lab_heap}
use wot_py.Tests.Things.{group, group-IsUnambiguous, ws_server}

abbrev pub idle_server : Server
idle_server = record ws_server { things = [] }

-- A servient with one ExposedThing, which is disabled.
abbrev pub idle : Servient
idle = record {
  hostname = "lab.org";
  heap = lab_heap;
  servers = idle_server ∷ [];
  clients = [];
  catalogue_port = some 9090;
  catalogue_on = false;
  exposed = group;
  enabled = [];
  dnssd_enabled = true;
  dnssd_on = false;
  running = false;
}

-- The same with the ExposedThing enabled.
abbrev busy : Servient
busy = record idle { servers = ws_server ∷ []; enabled = "urn:lab" ∷ [] }

lab-IsPlaced : (x : ℕ) → IsPlaced lab lab_heap x
unfolding interactions
lab-IsPlaced x = record { ident = refl; linked = λ i m. linked i m; ready = λ i m. ready i m }
  where
    linked : (i : Interaction) → In i (interactions (lab_heap x)) → i.thing ≡ x
    linked i (inl e) = ap (λ (j : Interaction). j.thing) e
    linked i (inr m) = absurd m

    ready :
        (i : Interaction)
        → In i (interactions (lab_heap x))
        → wot_py.Servient.Regenerate.IsReady lab i
    ready i (inl e) = rw e tt
    ready i (inr m) = absurd m

idle-IsConsistent : IsConsistent lab idle
idle-IsConsistent = record {
  exposed_set = (refl, tt);
  unambiguous = group-IsUnambiguous;
  placed = λ x m. lab-IsPlaced x;
  server_sets = λ s m. server_sets s m;
  served = λ s m. served s m;
}
  where
    server_sets :
        (s : Server) → In s idle.servers → wot_py.ThingSet.Lookup.IsIndexed lab_heap s.things
    server_sets s (inl e) = rw e tt
    server_sets s (inr m) = absurd m

    served : (s : Server) → In s idle.servers → IsServed lab idle s
    served s (inl e) x = rw e ((λ m. absurd m), (λ m. absurd m.1))
    served s (inr m) x = absurd m

busy-IsConsistent : IsConsistent lab busy
busy-IsConsistent = record {
  exposed_set = (refl, tt);
  unambiguous = group-IsUnambiguous;
  placed = λ x m. lab-IsPlaced x;
  server_sets = λ s m. server_sets s m;
  served = λ s m. served s m;
}
  where
    server_sets :
        (s : Server) → In s busy.servers → wot_py.ThingSet.Lookup.IsIndexed lab_heap s.things
    server_sets s (inl e) = rw e (refl, tt)
    server_sets s (inr m) = absurd m

    served : (s : Server) → In s busy.servers → IsServed lab busy s
    served s (inl e) x = rw e ((λ m. (m, inl refl)), (λ m. m.0))
    served s (inr m) x = absurd m

thing-got : get_exposed_thing lab "lab-urn-lab" idle ≡ ok 1
unfolding get_exposed_thing wot_py.ThingSet.find_by_thing_id wot_py.Prelude.next
    wot_py.ThingSet.is_thing_match thing_url_name wot_py.Tests.Lab.lab_slugify
thing-got = refl

thing-got_busy : get_exposed_thing lab "lab-urn-lab" busy ≡ ok 1
unfolding get_exposed_thing wot_py.ThingSet.find_by_thing_id wot_py.Prelude.next
    wot_py.ThingSet.is_thing_match thing_url_name wot_py.Tests.Lab.lab_slugify
thing-got_busy = refl

enable_exposed_thing_lem_example :
    (u : Servient) × (enable_exposed_thing lab "lab-urn-lab" idle ≡ no_error u)
    × IsConsistent lab u
    × (u.enabled ≡ "urn:lab" ∷ [])
    × (u.exposed ≡ group)
    × AreSimilar lab_heap u.heap
enable_exposed_thing_lem_example =
    enable_exposed_thing_lem lab "lab-urn-lab" idle 1 lab-Separates idle-IsConsistent thing-got
      (λ m. m)

disable_exposed_thing_lem_example :
    (u : Servient) × (disable_exposed_thing lab "lab-urn-lab" busy ≡ no_error u)
    × IsConsistent lab u
    × (u.enabled ≡ filter (λ x. not (x == "urn:lab")) ("urn:lab" ∷ []))
    × (u.exposed ≡ group)
    × AreSimilar lab_heap u.heap
disable_exposed_thing_lem_example =
    disable_exposed_thing_lem lab "lab-urn-lab" busy 1 lab-Separates busy-IsConsistent
      thing-got_busy (inl refl)

remove_exposed_thing_lem_example :
    (u : Servient) × (remove_exposed_thing lab "urn:lab" busy ≡ no_error u)
    × IsConsistent lab u
    × ((x : ℕ) → In x (values u.exposed) ↔ (In x (values group) × (x ≢ 1)))
remove_exposed_thing_lem_example =
    remove_exposed_thing_lem lab busy 1 lab-Separates busy-IsConsistent (inl refl)

-- The URL name of the Thing is not an enabled ID.
url_name-not_enabled : ¬ In (thing_url_name lab lab_thing) ("urn:lab" ∷ [])
unfolding thing_url_name wot_py.Tests.Lab.lab_slugify
url_name-not_enabled (inl e) = ne-of-== (thing_url_name lab lab_thing) "urn:lab" refl e
url_name-not_enabled (inr m) = m

remove_exposed_thing-url_name_example :
    (u : Servient) × (remove_exposed_thing lab (thing_url_name lab (busy.heap 1)) busy ≡ no_error u)
    × (¬ In 1 (values u.exposed))
    × In (u.heap 1).id u.enabled
    × In ws_server u.servers
    × In 1 (values group)
    × (¬ IsConsistent lab u)
remove_exposed_thing-url_name_example =
    remove_exposed_thing-url_name lab busy 1 ws_server busy-IsConsistent (inl refl) (inl refl)
      url_name-not_enabled (inl refl)

regenerate_thing_lem_example :
    regenerate_thing lab ws_server "lab.org" 1 lab_heap
    ≡ no_error (map_thing (regenerated lab ws_server "lab.org" 1 lab_heap) (lab_heap 1))
regenerate_thing_lem_example =
    regenerate_thing_lem lab ws_server "lab.org" 1 lab_heap lab-Separates (lab-IsPlaced 1)
      (λ x m. refl)
