-- ===== src/Mqtt/Client/Connections.antt =====
-- wotpy/protocols/mqtt/client.py: connections, delivery loops and references.
use wot_py.Prelude.{
  String, ◌∷◌, none, some, Bool, true, false, ◌&&◌, ◌==◌, if◌then◌else◌, ◌≡◌, ◌≢◌, refl, sym, ap,
  ◌∙◌, subst, ap₂, inl, inr, get, put, has, get-put, contains, contains_text, Bool-cases, arith,
  eq_refl, eq_iff,
}
use wot_py.Refs.{ConnRefCounter, increase, decrease, has_any}
use wot_py.Refs.Members.{is_ref, is_ref-increase, is_ref-decrease, has_any_iff}
use wot_py.Mqtt.Client.{MqttClient, Calls, start_deliver_loop, init_client}

pub not-true : {b : Bool} → b ≢ true → b ≡ false
not-true n = ground arith

-- A reference of another kind than the ones that changed is there before if it is there after.
has_any-increase_same :
    (conn ref : String) (c : ConnRefCounter) → has_any conn (increase conn ref c) ≡ true
has_any-increase_same conn ref c = (has_any_iff conn (increase conn ref c)).1 (
  ref,
  is_ref-increase conn ref conn ref c
      ∙ ap₂ (λ a b. if a && b then true else is_ref conn ref c) (eq_refl conn) (eq_refl ref),
)

is_ref-increase_other :
    (conn ref k q : String) (c : ConnRefCounter)
    → (conn == k) ≡ false
    → is_ref k q (increase conn ref c) ≡ is_ref k q c
is_ref-increase_other conn ref k q c n =
    is_ref-increase conn ref k q c ∙ ap (λ b. if b && ref == q then true else is_ref k q c) n

is_ref-decrease_other :
    (conn ref k q : String) (c : ConnRefCounter)
    → (conn == k) ≡ false
    → is_ref k q (decrease conn ref c) ≡ is_ref k q c
is_ref-decrease_other conn ref k q c n =
    is_ref-decrease conn ref k q c ∙ ap (λ b. if b && ref == q then false else is_ref k q c) n

-- Counters with the same references to a connection agree on whether there is one.
has_any-cong :
    (k : String) (c d : ConnRefCounter)
    → ((q : String) → is_ref k q c ≡ is_ref k q d)
    → has_any k c ≡ has_any k d
has_any-cong k c d same = elim (Bool-cases (has_any k c)) [
  | inl t ↦
      let (q, m) = (has_any_iff k c).0 t in t ∙ sym ((has_any_iff k d).1 (q, sym (same q) ∙ m))
  | inr f ↦
      f
      ∙ sym (
          not-true λ t.
            let (q, m) = (has_any_iff k d).0 t in let u = (has_any_iff k c).1 (q, same q ∙ m) in cc)
]

pub released_again :
    (conn ref : String) (c : ConnRefCounter)
    → has_any conn c ≡ false
    → has_any conn (decrease conn ref (increase conn ref c)) ≡ false
released_again conn ref c n = not-true (λ h.
    let (q, m) = (has_any_iff conn (decrease conn ref (increase conn ref c))).0 h in
    let old : is_ref conn q c ≡ true = ground (
      arith,
      is_ref-decrease conn ref conn q (increase conn ref c),
      is_ref-increase conn ref conn q c,
      eq_refl conn,
      m,
    ) in
    let u = (has_any_iff conn c).1 (q, old) in cc)

has_any-other_increase :
    (conn ref k : String) (c : ConnRefCounter)
    → (conn == k) ≡ false
    → has_any k (increase conn ref c) ≡ has_any k c
has_any-other_increase conn ref k c n =
    has_any-cong k (increase conn ref c) c (λ q. is_ref-increase_other conn ref k q c n)

pub has_any-other_decrease :
    (conn ref k : String) (c : ConnRefCounter)
    → (conn == k) ≡ false
    → has_any k (decrease conn ref c) ≡ has_any k c
has_any-other_decrease conn ref k c n =
    has_any-cong k (decrease conn ref c) c (λ q. is_ref-decrease_other conn ref k q c n)

-- A broker is among the clients exactly if there are references to it, and then its delivery loop
-- runs: the event is there and not set.
abbrev pub AreConsistent : MqttClient → String → Type 0
AreConsistent c b =
    (contains_text b c.clients ≡ has_any b c.ref_counter)
    × (get b c.deliver_stop_events ≡ (if contains_text b c.clients then some false else none))

module _ (calls : Calls) (broker ref_id : String) (c : MqttClient) where
  referred : MqttClient
  referred = record c { ref_counter = increase broker ref_id c.ref_counter }

  opened : MqttClient
  unfolding referred
  opened = record referred {
    clients = broker ∷ c.clients;
    deliver_stop_events = put broker false c.deliver_stop_events;
  }

  init-known :
      contains_text broker c.clients ≡ true → init_client calls broker ref_id c ≡ (referred, none)
  unfolding init_client referred
  init-known k = rw (k, init_client) refl

  init-new :
      contains_text broker c.clients ≡ false
      → calls.connect ≡ none
      → get broker c.deliver_stop_events ≡ none
      → init_client calls broker ref_id c ≡ (opened, none)
  unfolding init_client referred opened has get put
  init-new k n e = rw (k, init_client, n, start_deliver_loop, has, e) refl

  referred-AreConsistent :
      (b : String)
      → contains_text broker c.clients ≡ true
      → AreConsistent c b
      → AreConsistent referred b
  unfolding referred
  referred-AreConsistent b k (same, events) = elim (Bool-cases (broker == b)) [
    | inl e ↦
        let at_b : broker ≡ b = (eq_iff broker b).0 e in
        let any : has_any b (increase broker ref_id c.ref_counter) ≡ true =
          ap (λ x. has_any x (increase broker ref_id c.ref_counter)) (sym at_b)
          ∙ has_any-increase_same broker ref_id c.ref_counter in
        (ap (λ x. contains_text x c.clients) (sym at_b) ∙ k ∙ sym any, events)
    | inr n ↦ (same ∙ sym (has_any-other_increase broker ref_id b c.ref_counter n), events)
  ]

  opened-AreConsistent : (b : String) → AreConsistent c b → AreConsistent opened b
  unfolding referred opened contains
  opened-AreConsistent b (same, events) = elim (Bool-cases (broker == b)) [
    | inl e ↦
        let at_b : broker ≡ b = (eq_iff broker b).0 e in
        let any : has_any b (increase broker ref_id c.ref_counter) ≡ true =
          ap (λ x. has_any x (increase broker ref_id c.ref_counter)) (sym at_b)
          ∙ has_any-increase_same broker ref_id c.ref_counter in
        (rw (e, any) refl, rw (get-put broker b false c.deliver_stop_events, e) refl)
    | inr n ↦ (
      rw n (same ∙ sym (has_any-other_increase broker ref_id b c.ref_counter n)),
      rw (get-put broker b false c.deliver_stop_events, n) events,
    )
  ]

  -- Where hbmqtt connects, `_init_client` succeeds on a consistent client, refers to the broker, and
  -- leaves the client consistent.
  pub init_client-AreConsistent :
      calls.connect ≡ none
      → ((b : String) → AreConsistent c b)
      → ((init_client calls broker ref_id c).1 ≡ none)
        × (is_ref broker ref_id (init_client calls broker ref_id c).0.ref_counter ≡ true)
        × ((b : String) → AreConsistent (init_client calls broker ref_id c).0 b)
  unfolding referred opened
  init_client-AreConsistent n all =
      let own : is_ref broker ref_id (increase broker ref_id c.ref_counter) ≡ true =
        is_ref-increase broker ref_id broker ref_id c.ref_counter
        ∙ ap₂ (λ a b. if a && b then true else is_ref broker ref_id c.ref_counter) (eq_refl broker)
            (eq_refl ref_id) in
      elim (Bool-cases (contains_text broker c.clients)) [
        | inl k ↦
            let done = init-known k in
            (
              ap (λ r. r.1) done,
              ap (λ r. is_ref broker ref_id r.0.ref_counter) done ∙ own,
              λ b. subst (λ r. AreConsistent r.0 b) (sym done) (referred-AreConsistent b k (all b)),
            )
        | inr k ↦
            let done = init-new k n ((all broker).1 ∙ ap (λ x. if x then some false else none) k) in
            (
              ap (λ r. r.1) done,
              ap (λ r. is_ref broker ref_id r.0.ref_counter) done ∙ own,
              λ b. subst (λ r. AreConsistent r.0 b) (sym done) (opened-AreConsistent b (all b)),
            )
      ]
