-- ===== src/Servient/Lifecycle/Runs.antt =====
-- wotpy/wot/servient.py: `start` and `shutdown`, and what a modification does around them.
use wot_py.Prelude.{true, false, ◌||◌, ◌≡◌, none, some, servient_state, ap, sym, ◌∙◌, subst}
use wot_py.Platform.{Platform}
use wot_py.ThingSet.{Heap}
use wot_py.Servient.{Servient, refresh_forms}
use wot_py.Servient.Guards.{Modification, guarded, modify, modify_lem}
use wot_py.Servient.Lifecycle.{
  World, is_port, start_catalogue, stop_catalogue, start_dnssd, stop_dnssd, start, shutdown,
}
use wot_py.Servient.Lifecycle.Steps.{
  refresh_forms-eq, and_then-eq-none, outcome-eq, start_catalogue_lem, start_dnssd_lem,
  stop_catalogue_lem, stop_dnssd_lem, with_running, listening, resolved, no_dnssd, no_catalogue,
  heap_of, started, start_catalogue-ok, start_dnssd-ok, off, is_on, stopped_eq,
}

-- A start that succeeds generates the forms anew, has the catalogue on if it was on or has a port,
-- has DNS-SD on if it was on or is enabled, leaves the servient running, and changes nothing else.
pub start_lem :
    (env : Platform) (w : World) (sv u : Servient)
    → start env w sv ≡ (u, none)
    → (refresh_forms env sv ≡ (record sv { heap = u.heap }, none))
      × (u ≡ record sv {
        heap = u.heap;
        catalogue_on = sv.catalogue_on || is_port sv.catalogue_port;
        dnssd_on = sv.dnssd_on || sv.dnssd_enabled;
        running = true;
      })
unfolding start
start_lem env w sv u h =
    let (a, p, h1) = and_then-eq-none (refresh_forms env sv) _ u h in
    let (b, q, h2) = and_then-eq-none (a, w.servers_started) _ u h1 in
    let (c, r, h3) = and_then-eq-none (start_catalogue w b) _ u h2 in
    let (d, s, h4) = and_then-eq-none (start_dnssd w c) _ u h3 in
    let refreshed : a ≡ record sv { heap = a.heap } =
      subst (λ z. z ≡ record sv { heap = z.heap }) (outcome-eq p) (refresh_forms-eq env sv) in
    let final : Heap → Servient = λ heap. record sv {
      heap = heap;
      catalogue_on = sv.catalogue_on || is_port sv.catalogue_port;
      dnssd_on = sv.dnssd_on || sv.dnssd_enabled;
      running = true;
    } in
    let chain : u ≡ final a.heap =
      started sv a b c d u (sym (outcome-eq q) ∙ refreshed) (start_catalogue_lem w b c r)
        (start_dnssd_lem w c d s) (sym (outcome-eq h4)) in
    let heaps : a.heap ≡ u.heap = sym (ap heap_of chain) in
    (
      p ∙ ap (λ z. (z, none)) (refreshed ∙ ap (λ g. record sv { heap = g }) heaps),
      chain ∙ ap final heaps,
    )

-- A shutdown that succeeds turns the catalogue and DNS-SD off and leaves the servient stopped, and
-- it changes nothing else.
pub shutdown_lem :
    (w : World) (sv u : Servient)
    → shutdown w sv ≡ (u, none)
    → u ≡ record sv { catalogue_on = false; dnssd_on = false; running = false }
unfolding shutdown
shutdown_lem w sv u h =
    let (a, p, h1) = and_then-eq-none (sv, w.servers_stopped) _ u h in
    let (b, q, r) = and_then-eq-none (stop_dnssd w (stop_catalogue a)) _ u h1 in
    let x = stop_dnssd_lem w (stop_catalogue a) b q in
    sym (outcome-eq r)
    ∙ ap (with_running false)
        (x ∙ ap no_dnssd (stop_catalogue_lem a ∙ ap no_catalogue (sym (outcome-eq p))))

-- A start of a stopped servient without services and a shutdown, both without an error, give back
-- the servient, but for the forms that the start generated anew.
pub shutdown-start :
    (env : Platform) (w : World) (sv u v : Servient)
    → sv.running ≡ false
    → sv.catalogue_on ≡ false
    → sv.dnssd_on ≡ false
    → start env w sv ≡ (u, none)
    → shutdown w u ≡ (v, none)
    → (refresh_forms env sv ≡ (v, none)) × (v ≡ record sv { heap = u.heap })
shutdown-start env w sv u v a b c h k =
    let (r, e) = start_lem env w sv u h in
    let f : v ≡ record sv { heap = u.heap } =
      shutdown_lem w u v k ∙ (ap off e ∙ stopped_eq (record sv { heap = u.heap }) a b c) in
    (r ∙ ap (λ z. (z, none)) (sym f), f)

-- Around a start and a shutdown that both succeed: between them every modification raises and
-- changes nothing, and after the shutdown every modification succeeds.
modify-start :
    (env : Platform) (w : World) (sv u v : Servient) (m : Modification)
    → start env w sv ≡ (u, none)
    → shutdown w u ≡ (v, none)
    → (modify m u ≡ (u, some servient_state)) × (modify m v ≡ ((modify m v).0, none))
modify-start env w sv u v m h k =
    let e : u.running ≡ true = ap is_on ((start_lem env w sv u h).1) in
    let f : v.running ≡ false = ap is_on (shutdown_lem w u v k) in
    (
      subst (λ b. modify m u ≡ guarded b u (modify m u).0) e (modify_lem m u).0,
      subst (λ b. modify m v ≡ guarded b v (modify m v).0) f (modify_lem m v).0,
    )

-- If the forms can be generated, and no server, listening socket or DNS-SD service raises, then
-- `start` does not raise: with the new forms, the catalogue is on if it was on or has a port, DNS-SD
-- is on if it was on or is enabled, the servient is running, and nothing else is changed.
pub start-ok :
    (env : Platform) (w : World) (sv a : Servient)
    → refresh_forms env sv ≡ (a, none)
    → w.servers_started ≡ none
    → w.catalogue_listens ≡ none
    → w.dnssd_started ≡ none
    → w.dnssd_registered ≡ none
    → start env w sv ≡ (
      record sv {
        heap = a.heap;
        catalogue_on = sv.catalogue_on || is_port sv.catalogue_port;
        dnssd_on = sv.dnssd_on || sv.dnssd_enabled;
        running = true;
      },
      none,
    )
unfolding start
start-ok env w sv a r s c d e =
    let same : a ≡ record sv { heap = a.heap } =
      subst (λ z. z ≡ record sv { heap = z.heap }) (outcome-eq r) (refresh_forms-eq env sv) in
    rw (r, s, start_catalogue-ok w a c, start_dnssd-ok w (listening a) d e)
      (ap (λ z. (with_running true (resolved (listening z)), none)) same)
