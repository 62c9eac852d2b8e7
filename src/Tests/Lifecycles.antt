-- ===== src/Tests/Lifecycles.antt =====
-- The theorems on the life of a servient at concrete inputs.
use wot_py.Prelude.{
  String, List, [], ◌∷◌, Bool, true, false, ◌||◌, Option, none, some, ◌≡◌, refl, value_error,
  servient_state, if◌then◌else◌,
}
use wot_py.Servient.{Servient, refresh_forms}
use wot_py.Servient.Lifecycle.{World, is_port, start, shutdown}
use wot_py.Servient.Lifecycle.Runs.{start-ok, shutdown-start}
use wot_py.Tests.Lab.{lab}
use wot_py.Tests.Servients.{idle}

-- Nothing raises.
abbrev quiet : World
quiet = record {
  servers_started = none;
  catalogue_listens = none;
  dnssd_started = none;
  dnssd_registered = none;
  servers_stopped = none;
  dnssd_stopped = none;
}

-- The DNS-SD service does not start.
abbrev no_service : World
no_service = record quiet { dnssd_started = some value_error }

abbrev up : Servient
up = (start lab quiet idle).0

abbrev down : Servient
down = (shutdown quiet up).0

idle-starts : start lab quiet idle ≡ (up, none)
unfolding start wot_py.Prelude.for_each wot_py.ThingSet.contains_thing wot_py.Prelude.contains
    is_port
idle-starts = refl

up-stops : shutdown quiet up ≡ (down, none)
unfolding shutdown start wot_py.Prelude.for_each wot_py.ThingSet.contains_thing
    wot_py.Prelude.contains is_port
up-stops = refl

shutdown-start_example :
    (refresh_forms lab idle ≡ (down, none)) × (down ≡ record idle { heap = up.heap })
shutdown-start_example = shutdown-start lab quiet idle up down refl refl refl idle-starts up-stops

idle-refreshes : refresh_forms lab idle ≡ ((refresh_forms lab idle).0, none)
unfolding refresh_forms wot_py.Prelude.for_each wot_py.ThingSet.contains_thing
    wot_py.Prelude.contains
idle-refreshes = refl

start-ok_example : start lab quiet idle ≡ (
  record idle {
    heap = (refresh_forms lab idle).0.heap;
    catalogue_on = idle.catalogue_on || is_port idle.catalogue_port;
    dnssd_on = idle.dnssd_on || idle.dnssd_enabled;
    running = true;
  },
  none,
)
start-ok_example =
    start-ok lab quiet idle (refresh_forms lab idle).0 idle-refreshes refl refl refl refl
