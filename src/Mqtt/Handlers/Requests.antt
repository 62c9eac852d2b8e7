-- ===== src/Mqtt/Handlers/Requests.antt =====
-- wotpy/protocols/mqtt/handlers/property.py and action.py: what a request on the topic of a served
-- interaction leads to.
use wot_py.Prelude.{
  ℕ, String, List, [], ◌∷◌, ◌++◌, none, some, Bool, true, ◌==◌, ◌≡◌, refl, ap, ◌∙◌, fun_ext, subst,
  inl, inr, In, values, next, Error, ok, Outcome, attempt, and_then, arith, is_refl, eq_iff,
  eq_refl, next-In, next-true, next-some,
}
use wot_py.Platform.{Platform}
use wot_py.Json.{Json, text, object, Members, member, empty, integer}
use wot_py.Interaction.{Interaction, url_name}
use wot_py.Thing.{Thing, thing_url_name, interactions}
use wot_py.Thing.Members.{In-three_of}
use wot_py.Thing.Unique.{IsFormed, is_match-url_name}
use wot_py.Exposed.{ExposedThing, set_at, read_property, write_property, invoke, emit}
use wot_py.Exposed.Proxies.{invoke_item, read_item-property, write_item-property}
use wot_py.Ws.Schemas.{member_at}
use wot_py.Mqtt.Topics.{
  split, from_end, topic_of, requests_path, invocation_path, updates_path, ack_path, result_path,
  HasNoSlash, has_slash, split-topic_of, split-wildcard, answer_topics,
}
use wot_py.Mqtt.Handlers.{
  MqttHandler, find_target, on_target, item_topic, requests_wildcard, invocation_wildcard,
  update_message, ack_message, access_of, handle_request, handle_property_message, read_request,
  write_request, publish_write_ack, is_truthy, enqueue, access_request, handle_action_message,
  handle_invocation, invocation_request, result_message, member_or_null,
}

module _ (env : Platform) where
  abbrev name_at : MqttHandler → ℕ → String
  name_at h r = thing_url_name env (h.heap r).thing

  -- The handler serves the ExposedThing `r`, under a URL name that no other served one has.
  pub record Serves (h : MqttHandler) (r : ℕ) : Type 0 where
    pub served : In r h.exposed_things
    pub alone : (q : ℕ) → In q h.exposed_things → name_at h q ≡ name_at h r → q ≡ r
    pub formed : IsFormed env (h.heap r).thing
    pub plain_servient : HasNoSlash h.servient_id
    pub plain_name : HasNoSlash (name_at h r)

  find_thing :
      (h : MqttHandler) (r : ℕ)
      → Serves h r
      → next (λ q. name_at h q == name_at h r) h.exposed_things ≡ some r
  find_thing h r s =
      let test : ℕ → Bool = λ q. name_at h q == name_at h r in
      let (q, e) = next-some test h.exposed_things r s.served (eq_refl (name_at h r)) in
      e
      ∙ ap some (
          s.alone q (next-In test h.exposed_things q e)
            ((eq_iff (name_at h q) (name_at h r)).0 (next-true test h.exposed_things q e)))

  -- Among interactions of a well-formed Thing, the one that is searched by URL name is found.
  find_item :
      (t : Thing) (items : List Interaction) (i : Interaction)
      → IsFormed env t
      → ((j : Interaction) → In j items → In j (interactions t))
      → In i items
      → next (λ j. url_name env j == url_name env i) items ≡ some i
  find_item t items i f sub m =
      let test : Interaction → Bool = λ j. url_name env j == url_name env i in
      let (j, e) = next-some test items i m (eq_refl (url_name env i)) in
      e
      ∙ ap some (
          f.unique (url_name env i) j i (sub j (next-In test items j e)) (sub i m)
            (subst (λ z. wot_py.Thing.is_match env z j ≡ true)
              ((eq_iff (url_name env j) (url_name env i)).0 (next-true test items j e))
              (is_match-url_name env j))
            (is_match-url_name env i))

  -- An invocation does not change the Thing.
  invoke_item-thing :
      (name : String) (input : Json) (x : ExposedThing)
      → (invoke_item env name input x).0.thing ≡ x.thing
  unfolding invoke_item invoke wot_py.Exposed.invoke_with wot_py.Exposed.invoked emit
  invoke_item-thing name input x = ground arith

  -- A section on a served ExposedThing and an interaction of it whose URL name has no slash.
  module _ (h : MqttHandler) (r : ℕ) (i : Interaction) (s : Serves h r)
      (plain : HasNoSlash (url_name env i)) where
    found :
        (a b c : String) (items : ExposedThing → List Interaction)
        → ((j : Interaction) → In j (items (h.heap r)) → In j (interactions (h.heap r).thing))
        → In i (items (h.heap r))
        → find_target env (a ∷ b ∷ c ∷ name_at h r ∷ url_name env i ∷ []) items h ≡ ok (some (r, i))
    unfolding find_target from_end
    found a b c items sub m =
        let f = find_item (h.heap r).thing (items (h.heap r)) i s.formed sub m in
        rw (find_thing h r s) (rw f refl)

    reached :
        (path end a b wildcard : String) (items : ExposedThing → List Interaction)
        → split (topic_of path h.servient_id (name_at h r) (url_name env i))
          ≡ h.servient_id ∷ a ∷ b ∷ name_at h r ∷ url_name env i ∷ []
        → split wildcard ≡ h.servient_id ∷ a ∷ b ∷ end ∷ []
        → ((j : Interaction) → In j (items (h.heap r)) → In j (interactions (h.heap r).thing))
        → In i (items (h.heap r))
        → (rest : ℕ → Interaction → Outcome MqttHandler)
        → on_target env wildcard
            (topic_of path h.servient_id (name_at h r) (url_name env i))
            items
            h
            rest
          ≡ rest r i
    unfolding on_target
    reached path end a b wildcard items e w sub m rest =
        rw e (rw w (rw (found h.servient_id a b items sub m) refl))

    on_target-property :
        In i (values (h.heap r).thing.properties)
        → (rest : ℕ → Interaction → Outcome MqttHandler)
        → on_target env
            (requests_wildcard env h)
            (topic_of requests_path h.servient_id (name_at h r) (url_name env i))
            (λ x. values x.thing.properties)
            h
            rest
          ≡ rest r i
    unfolding requests_wildcard has_slash
    on_target-property m rest =
        reached requests_path "#" "property" "requests" (requests_wildcard env h)
          (λ x. values x.thing.properties)
          (split-topic_of requests_path "property" "requests" h.servient_id (name_at h r)
            (url_name env i) refl (refl, refl, s.plain_servient, s.plain_name, plain))
          (split-wildcard "/property/requests/#" "property" "requests" h.servient_id refl
            (refl, refl, s.plain_servient))
          (λ j n. In-three_of j (h.heap r).thing (inl n)) m rest

    on_target-action :
        In i (values (h.heap r).thing.actions)
        → (rest : ℕ → Interaction → Outcome MqttHandler)
        → on_target env
            (invocation_wildcard env h)
            (topic_of invocation_path h.servient_id (name_at h r) (url_name env i))
            (λ x. values x.thing.actions)
            h
            rest
          ≡ rest r i
    unfolding invocation_wildcard has_slash
    on_target-action m rest =
        reached invocation_path "#" "action" "invocation" (invocation_wildcard env h)
          (λ x. values x.thing.actions)
          (split-topic_of invocation_path "action" "invocation" h.servient_id (name_at h r)
            (url_name env i) refl (refl, refl, s.plain_servient, s.plain_name, plain))
          (split-wildcard "/action/invocation/#" "action" "invocation" h.servient_id refl
            (refl, refl, s.plain_servient))
          (λ j n. In-three_of j (h.heap r).thing (inr (inl n))) m rest

    -- On the topic of a property of a served ExposedThing, a read request that does not raise puts
    -- one message, with the value of `read_property`, on the topic of the updates of the property,
    -- and changes nothing else; where `read_property` raises, it raises the same and changes nothing.
    pub handle_property_message-read :
        (now : ℕ) (ms : Members)
        → In i (values (h.heap r).thing.properties)
        → member_at "action" ms ≡ some (text "read")
        → handle_property_message env now
            (record {
              topic = topic_of requests_path h.servient_id (name_at h r) (url_name env i);
              parsed = some (object ms);
            })
            h
          ≡ attempt (read_property env i.name (h.heap r)) h λ v. (
            record h {
              queue =
                  h.queue
                  ++ record {
                    topic = topic_of updates_path h.servient_id (name_at h r) (url_name env i);
                    payload = object (member "value" v (member "timestamp" (integer now) empty));
                    qos = h.qos_observe;
                  }
                    ∷ [];
            },
            none,
          )
    unfolding handle_property_message handle_request access_of access_request read_request enqueue
        update_message item_topic
    handle_property_message-read now ms m e = rw e (
        on_target-property m (λ q j. read_request env now q j h)
        ∙ rw (read_item-property env (h.heap r) s.formed i m) refl)

    publish_write_ack_lem :
        (ms : Members) (ack : Json)
        → member_at "ack" ms ≡ some ack
        → is_truthy ack ≡ true
        → (g : MqttHandler)
        → publish_write_ack env
            (topic_of requests_path h.servient_id (name_at h r) (url_name env i))
            ms
            g
          ≡ (
            record g {
              queue =
                  g.queue
                  ++ record {
                    topic = topic_of ack_path h.servient_id (name_at h r) (url_name env i);
                    payload = object (member "ack" ack empty);
                    qos = g.qos_rw;
                  }
                    ∷ [];
            },
            none,
          )
    unfolding publish_write_ack enqueue ack_message
    publish_write_ack_lem ms ack ek t g =
        let topics =
          answer_topics h.servient_id (name_at h r) (url_name env i)
            (s.plain_servient, s.plain_name, plain) in
        rw ek (rw t (rw (topics.0) refl))

    -- On that topic, a write request with a value and an acknowledgement code that is not false makes
    -- the write of `write_property`. If that raises, the handler raises the same and answers
    -- nothing; else it puts one message with the code on the topic of the acknowledgements.
    pub handle_property_message-write :
        (now : ℕ) (ms : Members) (v ack : Json)
        → In i (values (h.heap r).thing.properties)
        → member_at "action" ms ≡ some (text "write")
        → member_at "value" ms ≡ some v
        → member_at "ack" ms ≡ some ack
        → is_truthy ack ≡ true
        → handle_property_message env now
            (record {
              topic = topic_of requests_path h.servient_id (name_at h r) (url_name env i);
              parsed = some (object ms);
            })
            h
          ≡ (let (y, e) = write_property env i.name v (h.heap r) in
              and_then
                (record h { heap = set_at r y h.heap }, e)
                λ g. (
                  record g {
                    queue =
                        g.queue
                        ++ record {
                          topic = topic_of ack_path h.servient_id (name_at h r) (url_name env i);
                          payload = object (member "ack" ack empty);
                          qos = g.qos_rw;
                        }
                          ∷ [];
                  },
                  none,
                ))
    unfolding handle_property_message handle_request access_of access_request write_request
    handle_property_message-write now ms v ack m ea ev ek t =
        let topic = topic_of requests_path h.servient_id (name_at h r) (url_name env i) in
        let acknowledged = fun_ext (λ g. publish_write_ack_lem ms ack ek t g) in
        rw ea (
          on_target-property m (λ q j. write_request env topic ms q j h)
          ∙ rw ev (rw (write_item-property env (h.heap r) s.formed i v m) (rw acknowledged refl)))

    -- On the topic of an action of a served ExposedThing, a message whose payload is a dict makes the
    -- invocation, never raises, and puts exactly one message on the topic of the results: it has
    -- the ID of the request, and the result of the invocation or the text of its error.
    pub handle_action_message_lem :
        (now : ℕ) (str : Error → String) (ms : Members)
        → In i (values (h.heap r).thing.actions)
        → handle_action_message env now str
            (record {
              topic = topic_of invocation_path h.servient_id (name_at h r) (url_name env i);
              parsed = some (object ms);
            })
            h
          ≡ (let (y, result) = invoke_item env i.name (member_or_null "input" ms) (h.heap r) in
              (
                record h {
                  heap = set_at r y h.heap;
                  queue =
                      h.queue
                      ++ result_message env now
                          (topic_of result_path h.servient_id (name_at h r) (url_name env i))
                          (member_or_null "id" ms)
                          result
                          str
                          h
                        ∷ [];
                },
                none,
              ))
    unfolding handle_action_message handle_invocation invocation_request enqueue result_message
        set_at item_topic
    handle_action_message_lem now str ms m =
        on_target-action m (λ q j.
          invocation_request env now str (member_or_null "id" ms) (member_or_null "input" ms) q j h)
        ∙ rw (is_refl r, invoke_item-thing i.name (member_or_null "input" ms) (h.heap r)) refl
