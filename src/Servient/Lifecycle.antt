-- ===== src/Servient/Lifecycle.antt =====
-- wotpy/wot/servient.py: the start and the shutdown of the servient.
-- A coroutine of another package enters by its outcome: the exception with which it ends, if any.
pub mod Steps
pub mod Runs
use wot_py.Prelude.{
  ℕ, suc, zero, Bool, true, false, not, ◌||◌, ◌&&◌, if◌then◌else◌, ◌≡◌, ◌⊎◌, refl, Option, none,
  some, arith, servient_state, Outcome, and_then, Bool-cases, inl, inr, Error, String, ◌↔◌, ap, sym,
  ◌∙◌, subst,
}
use wot_py.Platform.{Platform}
use wot_py.ThingSet.{Heap}
use wot_py.Servient.{Servient, no_error, refresh_forms}
use wot_py.Servient.Guards.{Modification, guarded, modify, modify_lem}

-- The outcomes of one start or shutdown: of the coroutines of the servers, of the listening socket
-- of the catalogue, and of the DNS-SD service.
pub record World : Type 0 where
  pub servers_started : Option Error
  pub catalogue_listens : Option Error
  pub dnssd_started : Option Error
  pub dnssd_registered : Option Error
  pub servers_stopped : Option Error
  pub dnssd_stopped : Option Error

-- `not self._catalogue_port`, turned round
unfoldable pub is_port : Option ℕ → Bool
is_port none = false
is_port (some zero) = false
is_port (some (suc n)) = true

unfoldable pub start_catalogue : World → Servient → Outcome Servient
start_catalogue w sv =
    if sv.catalogue_on || not (is_port sv.catalogue_port)
    then no_error sv
    else and_then (sv, w.catalogue_listens) λ u. no_error (record u { catalogue_on = true })

unfoldable pub stop_catalogue : Servient → Servient
stop_catalogue sv = if not sv.catalogue_on then sv else record sv { catalogue_on = false }

-- `_start_dnssd`: the service is assigned before it is started.
unfoldable pub start_dnssd : World → Servient → Outcome Servient
start_dnssd w sv =
    if sv.dnssd_on || not sv.dnssd_enabled
    then no_error sv
    else and_then (record sv { dnssd_on = true }, w.dnssd_started) λ u. (u, w.dnssd_registered)

unfoldable pub stop_dnssd : World → Servient → Outcome Servient
stop_dnssd w sv =
    if not sv.dnssd_on
    then no_error sv
    else and_then (sv, w.dnssd_stopped) λ u. no_error (record u { dnssd_on = false })

unfoldable pub start : Platform → World → Servient → Outcome Servient
unfolding refresh_forms start_catalogue start_dnssd
start env w sv = and_then (refresh_forms env sv) λ a.
    and_then (a, w.servers_started)
      λ b.
        and_then (start_catalogue w b)
          λ c. and_then (start_dnssd w c) λ d. no_error (record d { running = true })

unfoldable pub shutdown : World → Servient → Outcome Servient
unfolding stop_catalogue stop_dnssd
shutdown w sv =
    and_then (sv, w.servers_stopped)
      λ a. and_then (stop_dnssd w (stop_catalogue a)) λ b. no_error (record b { running = false })
