-- ===== src/Mqtt/Client/Queues.antt =====
-- wotpy/protocols/mqtt/client.py: what the queues hold after a message.
use wot_py.Prelude.{
  ℕ, ◌+◌, ◌<◌, String, List, [], ◌∷◌, ◌++◌, none, some, Bool, true, false, not, ◌&&◌, ◌==◌, ltb,
  if◌then◌else◌, ◌≡◌, ◌≢◌, ◌↔◌, ◌⊎◌, refl, sym, ap, ◌∙◌, subst, inl, inr, In, filter, In-filter,
  In-filter_of, Dict, get, put, get-put, ne-of-==, ==-of-ne, In-append, In-append-left,
  In-append-right, Bool-cases, Option-cases, arith, eq_refl, eq_iff, contains, contains_text,
}
use wot_py.Json.{Json}
use wot_py.Mqtt.Handlers.{MqttMessage}
use wot_py.Mqtt.Client.{
  Stored, MqttClient, queues_of, topic_messages, clean_queues, clean_messages, new_message,
  known_topics, or_empty, append_to,
}

-- The items of a queue, as `_topic_messages` gives them without restrictions.
abbrev pub queue : String → String → MqttClient → List Stored
queue broker topic c = topic_messages broker topic none [] c

all_pass : (q : List Stored) → filter (λ m. true && not (contains_text m.id [])) q ≡ q
unfolding filter contains
all_pass [] = refl
all_pass (m ∷ q) = ap (λ l. m ∷ l) (all_pass q)

queue_lem :
    (broker topic : String) (c : MqttClient)
    → queue broker topic c ≡ or_empty (get topic (queues_of broker c))
unfolding topic_messages
queue_lem broker topic c = all_pass (or_empty (get topic (queues_of broker c)))

get-clean_queues :
    (ttl now : ℕ) (topic : String) (d : Dict (List Stored))
    → or_empty (get topic (clean_queues ttl now d))
      ≡ filter (λ m. ltb now (m.time + ttl)) (or_empty (get topic d))
unfolding get filter
get-clean_queues ttl now topic [] = refl
get-clean_queues ttl now topic ((t, q) ∷ d) = elim (Bool-cases (t == topic)) [
  | inl e ↦ rw e refl
  | inr n ↦ rw n (get-clean_queues ttl now topic d)
]

get-put_same : {V : Type 0} (k : String) (v : V) (d : Dict V) → get k (put k v d) ≡ some v
get-put_same k v d = rw (get-put k k v d, eq_refl k) refl

get-put_other :
    {V : Type 0} (k j : String) (v : V) (d : Dict V)
    → (k == j) ≡ false
    → get j (put k v d) ≡ get j d
get-put_other k j v d n = rw (get-put k j v d, n) refl

-- the queue of a topic after an item was appended to the queue of another or the same one
In-append_to :
    (topic t : String) (x m : Stored) (d : Dict (List Stored))
    → In m (or_empty (get t (append_to topic x d)))
      ↔ (In m (or_empty (get t d)) ⊎ ((t ≡ topic) × (m ≡ x)))
In-append_to topic t x m d = elim (Bool-cases (topic == t)) [
  | inl e ↦
      let same : topic ≡ t = (eq_iff topic t).0 e in
      let here : get t (append_to topic x d) ≡ some (or_empty (get topic d) ++ x ∷ []) =
        get-put topic t (or_empty (get topic d) ++ x ∷ []) d
        ∙ ap (λ b. if b then some (or_empty (get topic d) ++ x ∷ []) else get t d) e in
      let old : or_empty (get topic d) ≡ or_empty (get t d) = ap (λ k. or_empty (get k d)) same in
      (
        λ h.
            elim (In-append m (or_empty (get topic d)) (x ∷ [])
              (subst (λ o. In m (or_empty o)) here h)) [
                | inl a ↦ inl (subst (In m) old a)
                | inr b ↦ elim b [ inl y ↦ inr (sym same, y) | inr z ↦ absurd z ]
              ],
        λ h.
            subst (λ o. In m (or_empty o)) (sym here)
              (elim h [
                | inl a ↦
                    In-append-left m (or_empty (get topic d)) (x ∷ []) (subst (In m) (sym old) a)
                | inr (_, y) ↦ In-append-right m (or_empty (get topic d)) (x ∷ []) (inl y)
              ]),
      )
  | inr n ↦
      let other : get t (append_to topic x d) ≡ get t d =
        get-put_other topic t (or_empty (get topic d) ++ x ∷ []) d n in
      (
        λ h. inl (subst (λ o. In m (or_empty o)) other h),
        λ h. elim h [
          | inl a ↦ subst (λ o. In m (or_empty o)) (sym other) a
          | inr (y, _) ↦ absurd (ne-of-== topic t n (sym y))
        ],
      )
]

module _ (broker : String) (msg : MqttMessage) (id : String) (time now : ℕ) (c : MqttClient) where
  cleaned-get :
      (queues : Dict (List Stored)) (e : MqttClient)
      → get broker e.messages ≡ some queues
      → queues_of broker (clean_messages broker now e) ≡ clean_queues e.msg_ttl now queues
  unfolding clean_messages
  cleaned-get queues e h =
      rw (h, clean_messages, get-put_same broker (clean_queues e.msg_ttl now queues) e.messages)
        refl

  cleaned-other :
      (b : String) (e : MqttClient)
      → (broker == b) ≡ false
      → get b (clean_messages broker now e).messages ≡ get b e.messages
  unfolding clean_messages
  cleaned-other b e n = elim (Option-cases (get broker e.messages)) [
    | inl h ↦ rw (h, clean_messages) refl
    | inr (queues, h) ↦
        rw (h, clean_messages)
          (get-put_other broker b (clean_queues e.msg_ttl now queues) e.messages n)
  ]

  -- the item that is stored for the message
  abbrev pub new_item : Json → Stored
  new_item j = record { id = id; msg_data = j; time = time }

  abbrev appended : Json → Dict (List Stored)
  appended j = append_to msg.topic (new_item j) (queues_of broker c)

  with_item : Json → MqttClient
  with_item j = record c { messages = put broker (appended j) c.messages }

  accepted :
      (j : Json)
      → msg.parsed ≡ some j
      → contains_text msg.topic (known_topics broker c) ≡ true
      → new_message broker msg id time now c ≡ (clean_messages broker now (with_item j), none)
  unfolding new_message with_item
  accepted j p k = rw (k, new_message, p) refl

  is_young : Stored → Bool
  is_young m = ltb now (m.time + c.msg_ttl)

  queue-accepted :
      (j : Json) (topic : String)
      → queue broker topic (clean_messages broker now (with_item j))
        ≡ filter is_young (or_empty (get topic (appended j)))
  unfolding with_item is_young
  queue-accepted j topic =
      queue_lem broker topic (clean_messages broker now (with_item j))
      ∙ ap (λ d. or_empty (get topic d))
          (cleaned-get (appended j) (with_item j) (get-put_same broker (appended j) c.messages))
      ∙ get-clean_queues c.msg_ttl now topic (appended j)

  In-accepted :
      (j : Json) (topic : String) (m : Stored)
      → In m (queue broker topic (clean_messages broker now (with_item j))) ↔ (
          (In m (queue broker topic c) ⊎ ((topic ≡ msg.topic) × (m ≡ new_item j)))
          × (now < m.time + c.msg_ttl))
  unfolding is_young
  In-accepted j topic m =
      let same = queue-accepted j topic in
      let old = queue_lem broker topic c in
      let (to, from) = In-append_to msg.topic topic (new_item j) m (queues_of broker c) in
      (
        λ h.
            let (a, y) =
              In-filter is_young (or_empty (get topic (appended j))) m (subst (In m) same h) in
            (
              subst (λ q. In m q ⊎ ((topic ≡ msg.topic) × (m ≡ new_item j))) (sym old) (to a),
              ground arith,
            ),
        λ (a, y). subst (In m) (sym same) (
            In-filter_of is_young (or_empty (get topic (appended j))) m
              (from (subst (λ q. In m q ⊎ ((topic ≡ msg.topic) × (m ≡ new_item j))) old a))
              (ground arith)),
      )

  other-accepted :
      (j : Json) (b topic : String)
      → b ≢ broker
      → queue b topic (clean_messages broker now (with_item j)) ≡ queue b topic c
  unfolding with_item
  other-accepted j b topic n =
      let apart : (broker == b) ≡ false = ==-of-ne broker b (λ e. n (sym e)) in
      queue_lem b topic (clean_messages broker now (with_item j))
      ∙ ap (λ o. or_empty (get topic (or_empty o)))
          (cleaned-other b (with_item j) apart
            ∙ get-put_other broker b (appended j) c.messages apart)
      ∙ sym (queue_lem b topic c)

  -- `_new_message` accepts a message in a known topic with a payload that parses, and leaves in
  -- each queue of the broker what was there and, in the one of its topic, the new item, but for the
  -- items that are as old as the time to live or older; the queues of other brokers are unchanged.
  pub new_message_iff :
      (j : Json)
      → msg.parsed ≡ some j
      → contains_text msg.topic (known_topics broker c) ≡ true
      → let d = new_message broker msg id time now c in
        (d.1 ≡ none)
        × ((topic : String) (m : Stored)
            → In m (queue broker topic d.0) ↔ (
                (In m (queue broker topic c) ⊎ ((topic ≡ msg.topic) × (m ≡ new_item j)))
                × (now < m.time + c.msg_ttl)))
        × ((b topic : String) → b ≢ broker → queue b topic d.0 ≡ queue b topic c)
  new_message_iff j p k =
      let same = sym (accepted j p k) in
      (
        ap (λ d. d.1) (accepted j p k),
        λ topic m.
            subst
              (λ d. In m (queue broker topic d.0) ↔ (
                (In m (queue broker topic c) ⊎ ((topic ≡ msg.topic) × (m ≡ new_item j)))
                × (now < m.time + c.msg_ttl)))
              same (In-accepted j topic m),
        λ b topic n. ap (λ d. queue b topic d.0) (accepted j p k) ∙ other-accepted j b topic n,
      )
