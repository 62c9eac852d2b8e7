-- ===== src/Servient/Consistent/Refresh.antt =====
-- Generating all forms anew (`refresh_forms` of wotpy/wot/servient.py).
use wot_py.Prelude.{ℕ, In, values, Outcome}
use wot_py.Platform.{Platform}
use wot_py.Interaction.{Interaction, clean_forms}
use wot_py.Thing.{Thing}
use wot_py.ThingSet.{Heap, ThingSet}
use wot_py.Server.{Server}
use wot_py.Servient.{Servient, no_error, update, over_interactions}
use wot_py.Servient.Regenerate.Server.{IsPlaced}

module _ (env : Platform) where
  abbrev ArePlaced : ThingSet → Heap → Type 0
  ArePlaced exposed heap = (x : ℕ) → In x (values exposed) → IsPlaced env heap x

  abbrev clean_round : ℕ → Heap → Outcome Heap
  clean_round r h =
      let (t, e) = over_interactions (λ i. no_error (clean_forms i)) (h r) in (update h r t, e)
