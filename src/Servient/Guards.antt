-- ===== src/Servient/Guards.antt =====
-- wotpy/wot/servient.py: `_stopped_servient_only` and the operations that it guards.
use wot_py.Prelude.{
  ℕ, Bool, true, false, not, if◌then◌else◌, ◌≡◌, refl, Option, none, some, List, servient_state,
  Outcome, filter, next,
}
use wot_py.Platform.{Protocol}
use wot_py.Interaction.{same_protocol}
use wot_py.Server.{Server}
use wot_py.Servient.{
  Servient, stopped_only, add_server, remove_server, add_client, remove_client, set_catalogue_port,
  disable_td_catalogue, put_server, put_client,
}

-- The guarded operations, with their arguments.
pub data Modification : Type 0 where
  adds_server : Server → Modification
  removes_server : Protocol → Modification
  adds_client : Protocol → Modification
  removes_client : Protocol → Modification
  sets_catalogue_port : Option ℕ → Modification
  disables_catalogue : Modification

unfoldable pub modify : Modification → Servient → Outcome Servient
modify (adds_server s) = add_server s
modify (removes_server p) = remove_server p
modify (adds_client p) = add_client p
modify (removes_client p) = remove_client p
modify (sets_catalogue_port port) = set_catalogue_port port
modify disables_catalogue = disable_td_catalogue

-- `self._servers.get(protocol)`
unfoldable pub server_of : Protocol → List Server → Option Server
unfolding same_protocol
server_of p ss = next (λ s. same_protocol s.protocol p) ss

-- What a modification leaves alone: the Things with their forms, and what runs.
abbrev pub KeepsThings : Servient → Servient → Type 0
KeepsThings sv u =
    (u.heap ≡ sv.heap)
    × (u.exposed ≡ sv.exposed)
    × (u.enabled ≡ sv.enabled)
    × (u.running ≡ sv.running)
    × (u.catalogue_on ≡ sv.catalogue_on)
    × (u.dnssd_on ≡ sv.dnssd_on)

abbrev pub guarded : Bool → Servient → Servient → Outcome Servient
guarded stop sv u = if stop then (sv, some servient_state) else (u, none)

guarded_lem :
    (stop : Bool) (sv u : Servient)
    → KeepsThings sv u
    → (guarded stop sv u ≡ guarded stop sv (guarded stop sv u).0)
      × KeepsThings sv (guarded stop sv u).0
guarded_lem true sv u k = (refl, (refl, refl, refl, refl, refl, refl))
guarded_lem false sv u k = (refl, k)

-- A modification of a running servient raises ServientStateException and changes nothing. On a
-- stopped servient it succeeds, and it leaves the ExposedThings, their forms, the enabled IDs and
-- the running services as they were.
pub modify_lem :
    (m : Modification) (sv : Servient)
    → (modify m sv ≡ (if sv.running then (sv, some servient_state) else ((modify m sv).0, none)))
      × KeepsThings sv (modify m sv).0
unfolding modify add_server remove_server add_client remove_client set_catalogue_port
    disable_td_catalogue stopped_only
modify_lem (adds_server s) sv =
    guarded_lem sv.running sv (record sv { servers = put_server s sv.servers })
      (refl, refl, refl, refl, refl, refl)
modify_lem (removes_server p) sv =
    guarded_lem sv.running sv
      (record sv { servers = filter (λ s. not (same_protocol s.protocol p)) sv.servers })
      (refl, refl, refl, refl, refl, refl)
modify_lem (adds_client p) sv =
    guarded_lem sv.running sv (record sv { clients = put_client p sv.clients })
      (refl, refl, refl, refl, refl, refl)
modify_lem (removes_client p) sv =
    guarded_lem sv.running sv
      (record sv { clients = filter (λ c. not (same_protocol c p)) sv.clients })
      (refl, refl, refl, refl, refl, refl)
modify_lem (sets_catalogue_port port) sv =
    guarded_lem sv.running sv (record sv { catalogue_port = port })
      (refl, refl, refl, refl, refl, refl)
modify_lem disables_catalogue sv =
    guarded_lem sv.running sv (record sv { catalogue_port = none })
      (refl, refl, refl, refl, refl, refl)

-- What a lookup of a server answers after a modification, as of a dictionary of protocols.
abbrev pub server_after : Modification → Protocol → Option Server → Option Server
unfolding same_protocol
server_after (adds_server s) p old = if same_protocol s.protocol p then some s else old
server_after (removes_server q) p old = if same_protocol q p then none else old
server_after _ p old = old
