-- ===== src/Servient.antt =====
-- wotpy/wot/servient.py: the Servient, its servers, its ExposedThings and their forms.
-- The coroutines of other packages (a server's start and stop, the DNS-SD service) enter by their
-- outcome. The assertions of the form helpers hold wherever these are called, since the loops run
-- over the very collections that they ask about.
pub mod Regenerate
pub mod Consistent
pub mod Guards
pub mod Lifecycle
use wot_py.Prelude.{
  ℕ, String, List, [], ◌∷◌, ◌++◌, map, Option, none, some, Bool, true, false, not, ◌&&◌, ◌||◌, ◌==◌,
  ◌is◌, if◌then◌else◌, Dict, values, filter, contains_text, next, Error, value_error,
  servient_state, Result, ok, err, ◌>>=◌, or_raise, Outcome, and_then, attempt, for_each,
}
use wot_py.Platform.{Platform, Protocol, http, websockets, coap, mqtt}
use wot_py.Interaction.{Form, Interaction, same_protocol, remove_form, add_form, clean_forms}
use wot_py.Interaction.Forms.{of_protocol}
use wot_py.Thing.{Thing}
use wot_py.ThingSet.{Heap, ThingSet, contains_thing, add_thing, find_by_thing_id, remove_thing}
use wot_py.Server.{
  Server, add_exposed_thing as server_add, remove_exposed_thing as server_remove, build_forms,
  build_base_url,
}

-- `enabled` is the set of IDs; `catalogue_port` is `none` or the port, with 0 as a false port.
pub record Servient : Type 0 where
  pub hostname : String
  pub heap : Heap
  pub servers : List Server
  pub clients : List Protocol
  pub catalogue_port : Option ℕ
  pub catalogue_on : Bool
  pub exposed : ThingSet
  pub enabled : List String
  pub dnssd_enabled : Bool
  pub dnssd_on : Bool
  pub running : Bool

-- The write `h[r] = t` of a shared object.
unfoldable pub update : Heap → ℕ → Thing → Heap
update heap r t x = if x is r then t else heap x

-- What a round leaves of a dictionary: after a raise the rest is as it was.
abbrev next_item :
    String
    → Outcome Interaction
    → Dict Interaction
    → Outcome (Dict Interaction)
    → Outcome (Dict Interaction)
next_item k (j, some e) d rest = ((k, j) ∷ d, some e)
next_item k (j, none) d (d', e) = ((k, j) ∷ d', e)

-- A loop over one of a Thing's dictionaries that changes its interactions in place.
unfoldable pub over_dict :
    (Interaction → Outcome Interaction) → Dict Interaction → Outcome (Dict Interaction)
over_dict body [] = ([], none)
over_dict body ((k, i) ∷ d) = next_item k (body i) d (over_dict body d)

-- `for interaction in thing.interactions: body`
unfoldable pub over_interactions : (Interaction → Outcome Interaction) → Thing → Outcome Thing
unfolding over_dict
over_interactions body t =
    and_then (let (ps, e) = over_dict body t.properties in (record t { properties = ps }, e)) λ u.
      and_then (let (qs, e) = over_dict body u.actions in (record u { actions = qs }, e))
        λ v. let (rs, e) = over_dict body v.events in (record v { events = rs }, e)

-- `for form in forms: interaction.remove_form(form)`
unfoldable pub remove_forms : List Form → Interaction → Interaction
remove_forms [] i = i
remove_forms (f ∷ fs) i = remove_forms fs (remove_form f i)

-- `_clean_protocol_forms`, for one interaction
unfoldable pub clean_protocol : Protocol → Interaction → Interaction
unfolding remove_forms
clean_protocol p i = remove_forms (filter (of_protocol p) i.forms) i

abbrev pub no_error {ℓ} : {S : Type ℓ} → S → Outcome S
no_error s = (s, none)

abbrev cons_server : Server → Outcome (List Server × Heap) → Outcome (List Server × Heap)
cons_server s ((ss, h), e) = ((s ∷ ss, h), e)

abbrev next_server :
    Server
    → Outcome Heap
    → List Server
    → (Heap → Outcome (List Server × Heap))
    → Outcome (List Server × Heap)
next_server s (h, some e) ss rest = ((s ∷ ss, h), some e)
next_server s (h, none) ss rest = cons_server s (rest h)

abbrev servers_of : Servient → Outcome (List Server × Heap) → Outcome Servient
servers_of sv ((ss, h), e) = (record sv { servers = ss; heap = h }, e)

module _ (env : Platform) where
  -- `for form in forms: interaction.add_form(form)`
  unfoldable pub add_forms : List Form → Interaction → Outcome Interaction
  add_forms [] i = (i, none)
  add_forms (f ∷ fs) i = attempt (add_form env f i) i (add_forms fs)

  -- `_clean_protocol_forms` and then `_add_interaction_forms`, if the server has the ExposedThing.
  -- Here for one ExposedThing; `heap` is the state in front of it.
  unfoldable pub regenerate_thing : Server → String → ℕ → Heap → Outcome Thing
  unfolding over_interactions add_forms clean_protocol
  regenerate_thing s hostname r heap =
      and_then (over_interactions (λ i. no_error (clean_protocol s.protocol i)) (heap r)) λ t.
        if contains_thing r s.things
        then over_interactions
            (λ i. attempt (build_forms env (update heap r t) s hostname i) i (λ fs. add_forms fs i))
            t
        else no_error t

  -- `_regenerate_server_forms`: the loop over the ExposedThings of the servient
  unfoldable pub regenerate_server_forms : Server → String → ThingSet → Heap → Outcome Heap
  unfolding regenerate_thing update
  regenerate_server_forms s hostname exposed heap =
      for_each (λ r h. let (t, e) = regenerate_thing s hostname r h in (update h r t, e))
        (values exposed) heap

  -- the two nested loops of `_clean_forms`
  unfoldable pub clean_all_forms : ThingSet → Heap → Outcome Heap
  unfolding over_interactions update
  clean_all_forms exposed heap =
      for_each
        (λ r h.
          let (t, e) = over_interactions (λ i. no_error (clean_forms i)) (h r) in (update h r t, e))
        (values exposed) heap

  unfoldable pub refresh_forms : Servient → Outcome Servient
  unfolding regenerate_server_forms clean_all_forms
  refresh_forms sv =
      let (heap, e) =
        and_then (clean_all_forms sv.exposed sv.heap)
          λ h. for_each (λ s g. regenerate_server_forms s sv.hostname sv.exposed g) sv.servers h in
      (record sv { heap = heap }, e)

  -- `get_exposed_thing`
  unfoldable pub get_exposed_thing : String → Servient → Result ℕ
  get_exposed_thing thing_id sv =
      or_raise (find_by_thing_id env sv.heap thing_id sv.exposed) value_error

  -- A loop over the servers: each is changed, and then its forms are generated anew.
  unfoldable pub over_servers :
      (Heap → Server → Result Server)
      → String
      → ThingSet
      → List Server
      → Heap
      → Outcome (List Server × Heap)
  over_servers change hostname exposed [] heap = (([], heap), none)
  over_servers change hostname exposed (s ∷ ss) heap =
      attempt (change heap s) (s ∷ ss, heap)
        λ s'.
          next_server s' (regenerate_server_forms s' hostname exposed heap) ss
            (over_servers change hostname exposed ss)

  unfoldable pub enable_exposed_thing : String → Servient → Outcome Servient
  unfolding over_servers get_exposed_thing
  enable_exposed_thing thing_id sv = attempt (get_exposed_thing thing_id sv) sv λ r.
      and_then
        (servers_of sv
          (over_servers (λ h s. server_add h r s) sv.hostname sv.exposed sv.servers sv.heap))
        λ u.
          let id = (u.heap r).id in
          no_error (record u {
            enabled = if contains_text id u.enabled then u.enabled else id ∷ u.enabled;
          })

  unfoldable pub disable_exposed_thing : String → Servient → Outcome Servient
  unfolding over_servers get_exposed_thing
  disable_exposed_thing thing_id sv = attempt (get_exposed_thing thing_id sv) sv λ r.
      let id = (sv.heap r).id in
      if not (contains_text id sv.enabled)
      then (sv, some value_error)
      else and_then
          (servers_of sv (
            over_servers (λ h s. server_remove env h id s) sv.hostname sv.exposed sv.servers
              sv.heap))
          λ u. no_error (record u { enabled = filter (λ x. not (x == (u.heap r).id)) u.enabled })

  unfoldable pub add_exposed_thing : ℕ → Servient → Outcome Servient
  add_exposed_thing r sv =
      attempt (add_thing sv.heap r sv.exposed) sv λ set. no_error (record sv { exposed = set })

  unfoldable pub remove_exposed_thing : String → Servient → Outcome Servient
  unfolding disable_exposed_thing
  remove_exposed_thing thing_id sv =
      and_then
        (if contains_text thing_id sv.enabled
          then disable_exposed_thing thing_id sv
          else no_error sv)
        λ u.
          attempt (remove_thing env u.heap thing_id u.exposed) u
            λ set. no_error (record u { exposed = set })

-- `_stopped_servient_only`
unfoldable pub stopped_only : (Servient → Servient) → Servient → Outcome Servient
stopped_only change sv = if sv.running then (sv, some servient_state) else no_error (change sv)

-- `self._servers[server.protocol] = server`
unfoldable pub put_server : Server → List Server → List Server
put_server s [] = s ∷ []
put_server s (x ∷ xs) = if same_protocol x.protocol s.protocol then s ∷ xs else x ∷ put_server s xs

unfoldable pub put_client : Protocol → List Protocol → List Protocol
put_client p [] = p ∷ []
put_client p (x ∷ xs) = if same_protocol x p then p ∷ xs else x ∷ put_client p xs

unfoldable pub add_server : Server → Servient → Outcome Servient
unfolding stopped_only put_server
add_server s = stopped_only (λ sv. record sv { servers = put_server s sv.servers })

unfoldable pub remove_server : Protocol → Servient → Outcome Servient
unfolding stopped_only
remove_server p =
    stopped_only
      (λ sv. record sv { servers = filter (λ s. not (same_protocol s.protocol p)) sv.servers })

unfoldable pub add_client : Protocol → Servient → Outcome Servient
unfolding stopped_only put_client
add_client p = stopped_only (λ sv. record sv { clients = put_client p sv.clients })

unfoldable pub remove_client : Protocol → Servient → Outcome Servient
unfolding stopped_only
remove_client p =
    stopped_only (λ sv. record sv { clients = filter (λ c. not (same_protocol c p)) sv.clients })

-- the setter of `catalogue_port`
unfoldable pub set_catalogue_port : Option ℕ → Servient → Outcome Servient
unfolding stopped_only
set_catalogue_port port = stopped_only (λ sv. record sv { catalogue_port = port })

unfoldable pub disable_td_catalogue : Servient → Outcome Servient
unfolding stopped_only
disable_td_catalogue = stopped_only (λ sv. record sv { catalogue_port = none })
