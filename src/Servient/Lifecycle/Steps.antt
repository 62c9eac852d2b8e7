-- ===== src/Servient/Lifecycle/Steps.antt =====
-- wotpy/wot/servient.py: the steps of a start and of a shutdown, one by one.
use wot_py.Prelude.{
  Bool, true, false, not, ◌||◌, if◌then◌else◌, ◌≡◌, refl, Option, none, some, Outcome, and_then,
  Error, ap, sym, ◌∙◌,
}
use wot_py.Platform.{Platform}
use wot_py.ThingSet.{Heap}
use wot_py.Servient.{Servient, no_error, refresh_forms}
use wot_py.Servient.Lifecycle.{
  World, is_port, start_catalogue, stop_catalogue, start_dnssd, stop_dnssd,
}

pub refresh_forms-eq :
    (env : Platform) (sv : Servient)
    → (refresh_forms env sv).0 ≡ record sv { heap = (refresh_forms env sv).0.heap }
unfolding refresh_forms
refresh_forms-eq env sv = refl

pub and_then-eq-none :
    {S : Type 0} (o : Outcome S) (k : S → Outcome S) (t : S)
    → and_then o k ≡ (t, none)
    → (s : S) × (o ≡ (s, none)) × (k s ≡ (t, none))
and_then-eq-none (s, none) k t h = (s, refl, h)
and_then-eq-none (s, some e) k t h = cc

pub outcome-eq : {S : Type 0} {o p : Outcome S} → o ≡ p → o.0 ≡ p.0
outcome-eq h = ap (λ o. o.0) h

pub start_catalogue_lem :
    (w : World) (sv u : Servient)
    → start_catalogue w sv ≡ (u, none)
    → u ≡ record sv { catalogue_on = sv.catalogue_on || is_port sv.catalogue_port }
unfolding start_catalogue
start_catalogue_lem w sv u = go sv.catalogue_on (is_port sv.catalogue_port) w.catalogue_listens refl
  where
    go :
        (c p : Bool) (l : Option Error)
        → sv.catalogue_on ≡ c
        → (if c || not p
            then no_error sv
            else and_then (sv, l) λ u. no_error (record u { catalogue_on = true }))
          ≡ (u, none)
        → u ≡ record sv { catalogue_on = c || p }
    go true p l e h = sym (outcome-eq h) ∙ ap (λ b. record sv { catalogue_on = b }) e
    go false false l e h = sym (outcome-eq h) ∙ ap (λ b. record sv { catalogue_on = b }) e
    go false true none e h = sym (outcome-eq h)
    go false true (some x) e h = cc

pub start_dnssd_lem :
    (w : World) (sv u : Servient)
    → start_dnssd w sv ≡ (u, none)
    → u ≡ record sv { dnssd_on = sv.dnssd_on || sv.dnssd_enabled }
unfolding start_dnssd
start_dnssd_lem w sv u = go sv.dnssd_on sv.dnssd_enabled w.dnssd_started w.dnssd_registered refl
  where
    go :
        (c p : Bool) (l m : Option Error)
        → sv.dnssd_on ≡ c
        → (if c || not p
            then no_error sv
            else and_then (record sv { dnssd_on = true }, l) λ u. (u, m))
          ≡ (u, none)
        → u ≡ record sv { dnssd_on = c || p }
    go true p l m e h = sym (outcome-eq h) ∙ ap (λ b. record sv { dnssd_on = b }) e
    go false false l m e h = sym (outcome-eq h) ∙ ap (λ b. record sv { dnssd_on = b }) e
    go false true none m e h = sym (outcome-eq h)
    go false true (some x) m e h = cc

pub stop_catalogue_lem : (sv : Servient) → stop_catalogue sv ≡ record sv { catalogue_on = false }
unfolding stop_catalogue
stop_catalogue_lem sv = go sv.catalogue_on refl
  where
    go :
        (c : Bool)
        → sv.catalogue_on ≡ c
        → (if not c then sv else record sv { catalogue_on = false })
          ≡ record sv { catalogue_on = false }
    go true e = refl
    go false e = ap (λ b. record sv { catalogue_on = b }) e

pub stop_dnssd_lem :
    (w : World) (sv u : Servient) → stop_dnssd w sv ≡ (u, none) → u ≡ record sv { dnssd_on = false }
unfolding stop_dnssd
stop_dnssd_lem w sv u = go sv.dnssd_on w.dnssd_stopped refl
  where
    go :
        (c : Bool) (l : Option Error)
        → sv.dnssd_on ≡ c
        → (if not c
            then no_error sv
            else and_then (sv, l) λ u. no_error (record u { dnssd_on = false }))
          ≡ (u, none)
        → u ≡ record sv { dnssd_on = false }
    go true none e h = sym (outcome-eq h)
    go true (some x) e h = cc
    go false l e h = sym (outcome-eq h) ∙ ap (λ b. record sv { dnssd_on = b }) e

abbrev pub with_running : Bool → Servient → Servient
with_running b sv = record sv { running = b }

abbrev pub resolved : Servient → Servient
resolved sv = record sv { dnssd_on = sv.dnssd_on || sv.dnssd_enabled }

abbrev pub listening : Servient → Servient
listening sv = record sv { catalogue_on = sv.catalogue_on || is_port sv.catalogue_port }

abbrev pub no_dnssd : Servient → Servient
no_dnssd sv = record sv { dnssd_on = false }

abbrev pub no_catalogue : Servient → Servient
no_catalogue sv = record sv { catalogue_on = false }

abbrev pub heap_of : Servient → Heap
heap_of sv = sv.heap

pub started :
    (sv a b c d u : Servient)
    → b ≡ record sv { heap = a.heap }
    → c ≡ record b { catalogue_on = b.catalogue_on || is_port b.catalogue_port }
    → d ≡ record c { dnssd_on = c.dnssd_on || c.dnssd_enabled }
    → u ≡ record d { running = true }
    → u ≡ record sv {
      heap = a.heap;
      catalogue_on = sv.catalogue_on || is_port sv.catalogue_port;
      dnssd_on = sv.dnssd_on || sv.dnssd_enabled;
      running = true;
    }
started sv a b c d u p q r s = s ∙ ap (with_running true) (r ∙ ap resolved (q ∙ ap listening p))

pub start_catalogue-ok :
    (w : World) (sv : Servient)
    → w.catalogue_listens ≡ none
    → start_catalogue w sv ≡ (listening sv, none)
unfolding start_catalogue
start_catalogue-ok w sv = go sv.catalogue_on (is_port sv.catalogue_port) w.catalogue_listens refl
  where
    go :
        (c p : Bool) (l : Option Error)
        → sv.catalogue_on ≡ c
        → l ≡ none
        → (if c || not p
            then no_error sv
            else and_then (sv, l) λ u. no_error (record u { catalogue_on = true }))
          ≡ (record sv { catalogue_on = c || p }, none)
    go true p l e h = ap (λ b. (record sv { catalogue_on = b }, none)) e
    go false false l e h = ap (λ b. (record sv { catalogue_on = b }, none)) e
    go false true none e h = refl
    go false true (some x) e h = cc

pub start_dnssd-ok :
    (w : World) (sv : Servient)
    → w.dnssd_started ≡ none
    → w.dnssd_registered ≡ none
    → start_dnssd w sv ≡ (resolved sv, none)
unfolding start_dnssd
start_dnssd-ok w sv = go sv.dnssd_on sv.dnssd_enabled w.dnssd_started w.dnssd_registered refl
  where
    go :
        (c p : Bool) (l m : Option Error)
        → sv.dnssd_on ≡ c
        → l ≡ none
        → m ≡ none
        → (if c || not p
            then no_error sv
            else and_then (record sv { dnssd_on = true }, l) λ u. (u, m))
          ≡ (record sv { dnssd_on = c || p }, none)
    go true p l m e h k = ap (λ b. (record sv { dnssd_on = b }, none)) e
    go false false l m e h k = ap (λ b. (record sv { dnssd_on = b }, none)) e
    go false true none none e h k = refl
    go false true (some x) m e h k = cc
    go false true none (some x) e h k = cc

pub start_dnssd-raises :
    (w : World) (sv : Servient) (e : Error)
    → w.dnssd_started ≡ some e
    → sv.dnssd_on ≡ false
    → sv.dnssd_enabled ≡ true
    → start_dnssd w sv ≡ (record sv { dnssd_on = true }, some e)
unfolding start_dnssd
start_dnssd-raises w sv e d o p = simp (d, o, p)

abbrev pub has_dnssd : Servient → Bool
has_dnssd sv = sv.dnssd_on

abbrev pub wants_dnssd : Servient → Bool
wants_dnssd sv = sv.dnssd_enabled

abbrev pub off : Servient → Servient
off sv = no_catalogue (no_dnssd (with_running false sv))

abbrev pub is_on : Servient → Bool
is_on sv = sv.running

abbrev services : Bool → Bool → Bool → Servient → Servient
services running catalogue dnssd sv = record sv {
  running = running;
  catalogue_on = catalogue;
  dnssd_on = dnssd;
}

pub stopped_eq :
    (sv : Servient)
    → sv.running ≡ false
    → sv.catalogue_on ≡ false
    → sv.dnssd_on ≡ false
    → off sv ≡ sv
stopped_eq sv a b c = sym (
    ap (λ r. services r sv.catalogue_on sv.dnssd_on sv) a
    ∙ (ap (λ k. services false k sv.dnssd_on sv) b ∙ ap (λ d. services false false d sv) c))
