-- ===== src/Tests/Subscribers.antt =====
-- The theorem on the subscriptions of the MQTT handlers at a concrete input.
use wot_py.Prelude.{ℕ, ◌≤◌, List, [], ◌∷◌, ◌≡◌, ◌↔◌, refl, sym, inl, In, subst}
use wot_py.Servient.{no_error}
use wot_py.Mqtt.Subscriber.{Subscriber, observed_properties, new_subscriber, refresh}
use wot_py.Mqtt.Subscriber.Members.{IsCoherent, live_count}
use wot_py.Mqtt.Subscriber.Refresh.{IsShownAt, refresh_lem}
use wot_py.Tests.Lab.{lab}
use wot_py.Tests.Brokers.{exposed, exposed-IsWellFormed}

abbrev subscriber : Subscriber
subscriber = record { observed = observed_properties; subs = []; live = [] }

subscriber-IsCoherent : IsCoherent subscriber
unfolding wot_py.Mqtt.Subscriber.Members.is_subscribed live_count wot_py.Mqtt.Subscriber.thing_subs
    wot_py.Prelude.has_ident wot_py.Prelude.get_at
subscriber-IsCoherent q j = refl

refresh_lem_example :
    (t : Subscriber) × (refresh lab (λ r. exposed) (1 ∷ []) subscriber ≡ no_error t)
    × IsCoherent t
    × ((q j : ℕ)
        → (live_count q j t.live ≡ 1)
          ↔ (In q (1 ∷ []) × IsShownAt (λ r. exposed) observed_properties q j))
    × ((q j : ℕ) → live_count q j t.live ≤ 1)
refresh_lem_example =
    refresh_lem lab (λ r. exposed) (1 ∷ []) subscriber (λ r m. exposed-IsWellFormed)
      subscriber-IsCoherent
