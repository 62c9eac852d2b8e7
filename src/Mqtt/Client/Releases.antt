-- ===== src/Mqtt/Client/Releases.antt =====
-- wotpy/protocols/mqtt/client.py: what `_disconnect_client` leaves, also where the delivery loop does
-- not end in time.
pub mod Broken
use wot_py.Prelude.{
  String, List, [], ◌∷◌, Option, none, some, Bool, true, false, not, ◌&&◌, ◌==◌, if◌then◌else◌, ◌≡◌,
  ◌≢◌, refl, sym, ap, ◌∙◌, subst, ap₂, inl, inr, Dict, get, pop, has, get-put, get-pop, filter,
  contains, contains_text, Bool-cases, Option-cases, arith, eq_refl, eq_iff, ==-of-ne, ne-of-==,
  assertion_error,
}
use wot_py.Refs.{ConnRefCounter, increase, decrease, has_any}
use wot_py.Refs.Members.{
  is_ref, is_ref-increase, is_ref-decrease, contains_text-filter, has_any_iff,
}
use wot_py.Mqtt.Client.{
  MqttClient, Calls, start_deliver_loop, stop_deliver_loop, init_client, disconnect_client,
}
use wot_py.Mqtt.Client.Connections.{AreConsistent, not-true, released_again, has_any-other_decrease}

-- A reference that is left after a decrease was there before.
has_any-decrease :
    (conn ref : String) (c : ConnRefCounter)
    → has_any conn (decrease conn ref c) ≡ true
    → has_any conn c ≡ true
has_any-decrease conn ref c h =
    let (q, m) = (has_any_iff conn (decrease conn ref c)).0 h in
    let old : is_ref conn q c ≡ true =
      ground (arith, is_ref-decrease conn ref conn q c, m, eq_refl conn) in
    (has_any_iff conn c).1 (q, old)

module _ (calls : Calls) (broker ref_id : String) (c : MqttClient) where
  released_ref : MqttClient
  released_ref = record c { ref_counter = decrease broker ref_id c.ref_counter }

  -- the client after the last reference was given back, for what is left of the events
  closed : Dict Bool → MqttClient
  unfolding released_ref
  closed events = record released_ref {
    deliver_stop_events = events;
    clients = filter (λ k. not (k == broker)) c.clients;
    messages = pop broker c.messages;
    msg_conditions = pop broker c.msg_conditions;
    topics = pop broker c.topics;
  }

  disconnect-shared :
      has_any broker (decrease broker ref_id c.ref_counter) ≡ true
      → disconnect_client calls broker ref_id c ≡ released_ref
  unfolding disconnect_client released_ref
  disconnect-shared h = rw (h, disconnect_client) refl

  disconnect-unknown :
      has_any broker (decrease broker ref_id c.ref_counter) ≡ false
      → get broker c.deliver_stop_events ≡ none
      → disconnect_client calls broker ref_id c ≡ closed c.deliver_stop_events
  unfolding disconnect_client released_ref closed
  disconnect-unknown h e = rw (h, disconnect_client, stop_deliver_loop, e) refl

  disconnect-running :
      has_any broker (decrease broker ref_id c.ref_counter) ≡ false
      → get broker c.deliver_stop_events ≡ some false
      → calls.loop_ends ≡ true
      → disconnect_client calls broker ref_id c ≡ closed (pop broker c.deliver_stop_events)
  unfolding disconnect_client released_ref closed
  disconnect-running h e l = rw (h, disconnect_client, stop_deliver_loop, e, l) refl

  shared-AreConsistent :
      (b : String)
      → has_any broker (decrease broker ref_id c.ref_counter) ≡ true
      → AreConsistent c b
      → AreConsistent released_ref b
  unfolding released_ref
  shared-AreConsistent b h (same, events) = elim (Bool-cases (broker == b)) [
    | inl e ↦
        let at_b : broker ≡ b = (eq_iff broker b).0 e in
        let after = ap (λ x. has_any x (decrease broker ref_id c.ref_counter)) (sym at_b) ∙ h in
        let before =
          ap (λ x. has_any x c.ref_counter) (sym at_b)
          ∙ has_any-decrease broker ref_id c.ref_counter h in
        (same ∙ before ∙ sym after, events)
    | inr n ↦ (same ∙ sym (has_any-other_decrease broker ref_id b c.ref_counter n), events)
  ]

  closed-AreConsistent :
      (b : String) (left : Dict Bool)
      → has_any broker (decrease broker ref_id c.ref_counter) ≡ false
      → get broker left ≡ none
      → ((broker == b) ≡ false → get b left ≡ get b c.deliver_stop_events)
      → AreConsistent c b
      → AreConsistent (closed left) b
  unfolding closed released_ref
  closed-AreConsistent b left h gone others (same, events) = elim (Bool-cases (broker == b)) [
    | inl e ↦
        let at_b : broker ≡ b = (eq_iff broker b).0 e in
        let after = ap (λ x. has_any x (decrease broker ref_id c.ref_counter)) (sym at_b) ∙ h in
        let dropped : contains_text b (filter (λ k. not (k == broker)) c.clients) ≡ false =
          contains_text-filter b broker c.clients
          ∙ ap (λ x. if x then false else contains_text b c.clients) e in
        (
          dropped ∙ sym after,
          ap (λ x. get x left) (sym at_b)
              ∙ gone
              ∙ sym (ap (λ x. if x then some false else none) dropped),
        )
    | inr n ↦
        let kept : contains_text b (filter (λ k. not (k == broker)) c.clients)
            ≡ contains_text b c.clients =
          contains_text-filter b broker c.clients
          ∙ ap (λ x. if x then false else contains_text b c.clients) n in
        (
          kept ∙ same ∙ sym (has_any-other_decrease broker ref_id b c.ref_counter n),
          others n ∙ events ∙ sym (ap (λ x. if x then some false else none) kept),
        )
  ]

  -- Where the delivery loop ends in time, `_disconnect_client` leaves a consistent client
  -- consistent, whether or not there was such a reference.
  pub disconnect_client-AreConsistent :
      calls.loop_ends ≡ true
      → ((b : String) → AreConsistent c b)
      → (b : String) → AreConsistent (disconnect_client calls broker ref_id c) b
  disconnect_client-AreConsistent l all b =
      elim (Bool-cases (has_any broker (decrease broker ref_id c.ref_counter))) [
        | inl h ↦
            subst (λ d. AreConsistent d b) (sym (disconnect-shared h))
              (shared-AreConsistent b h (all b))
        | inr h ↦ elim (Bool-cases (contains_text broker c.clients)) [
          | inl k ↦
              let e = (all broker).1 ∙ ap (λ x. if x then some false else none) k in
              subst (λ d. AreConsistent d b) (sym (disconnect-running h e l))
                (closed-AreConsistent b (pop broker c.deliver_stop_events) h
                  (get-pop broker broker c.deliver_stop_events
                    ∙ ap (λ x. if x then none else get broker c.deliver_stop_events)
                        (eq_refl broker))
                  (λ n.
                    get-pop broker b c.deliver_stop_events
                    ∙ ap (λ x. if x then none else get b c.deliver_stop_events) n)
                  (all b))
          | inr k ↦
              let e = (all broker).1 ∙ ap (λ x. if x then some false else none) k in
              subst (λ d. AreConsistent d b) (sym (disconnect-unknown h e))
                (closed-AreConsistent b c.deliver_stop_events h e (λ n. refl) (all b))
        ]
      ]
