-- ===== src/Server/Forms.antt =====
-- The forms that a server builds for an interaction (`build_forms` of the four server classes):
-- whose they are, and how they differ.
use wot_py.Prelude.{
  ℕ, String, List, [], ◌∷◌, Bool, true, false, ◌≡◌, inl, inr, refl, In, All, values, next-some,
  next-In, is_iff, ok, ◌>>=◌, >>=-eq-ok, ok-injective, or_raise, value_error, ◌is◌,
}
use wot_py.Platform.{Platform, Protocol, http, websockets, coap, mqtt, Op, absent, single, several}
use wot_py.Interaction.{Kind, property, action, event, Form, Interaction, same_op, interaction_type}
use wot_py.Thing.{thing_url_name, found}
use wot_py.ThingSet.{Heap, ThingSet, find_by_interaction, find_by_thing_id, is_thing_match}
use wot_py.ThingSet.Lookup.{is_thing_match-id}
use wot_py.Server.{
  Server, cat, scheme, rstrip, new_form, http_forms, coap_forms, mqtt_forms, websocket_forms,
  base_url_of, forms_of, build_forms,
}

-- The values of `op` that the servers write.
abbrev pub built_ops : List Op
built_ops =
    absent
    ∷ single "readproperty"
    ∷ single "writeproperty"
    ∷ single "observeproperty"
    ∷ single "invokeaction"
    ∷ single "subscribeevent"
    ∷ several ("readproperty" ∷ "writeproperty" ∷ [])
    ∷ several ("observeproperty" ∷ [])
    ∷ several ("invokeaction" ∷ [])
    ∷ several ("subscribeevent" ∷ [])
    ∷ []

-- Forms with different operations on each.
abbrev pub HaveOtherOps : List Form → Type 0
HaveOtherOps [] = Unit
HaveOtherOps (f ∷ fs) = All (λ g. same_op f.op g.op ≡ false) fs × HaveOtherOps fs

-- What is said of each form that a server builds for an interaction.
abbrev pub IsBuilt : Protocol → ℕ → Form → Type 0
IsBuilt p owner f = (f.interaction ≡ owner) × (f.protocol ≡ p) × In f.op built_ops

abbrev pub AreBuilt : Protocol → Interaction → List Form → Type 0
AreBuilt p i fs = All (IsBuilt p i.ident) fs × HaveOtherOps fs

-- The places of the operations in the list.
at1 : In (single "readproperty") built_ops
at1 = inr (inl refl)

at2 : In (single "writeproperty") built_ops
at2 = inr (inr (inl refl))

at3 : In (single "observeproperty") built_ops
at3 = inr (inr (inr (inl refl)))

at4 : In (single "invokeaction") built_ops
at4 = inr (inr (inr (inr (inl refl))))

at5 : In (single "subscribeevent") built_ops
at5 = inr (inr (inr (inr (inr (inl refl)))))

at6 : In (several ("readproperty" ∷ "writeproperty" ∷ [])) built_ops
at6 = inr (inr (inr (inr (inr (inr (inl refl))))))

at7 : In (several ("observeproperty" ∷ [])) built_ops
at7 = inr (inr (inr (inr (inr (inr (inr (inl refl)))))))

at8 : In (several ("invokeaction" ∷ [])) built_ops
at8 = inr (inr (inr (inr (inr (inr (inr (inr (inl refl))))))))

at9 : In (several ("subscribeevent" ∷ [])) built_ops
at9 = inr (inr (inr (inr (inr (inr (inr (inr (inr (inl refl)))))))))

module _ (env : Platform) where
  http_forms-AreBuilt :
      (k : Kind) (s : Server) (hostname thing : String) (i : Interaction)
      → AreBuilt http i (http_forms env k s hostname thing i)
  unfolding http_forms same_op
  http_forms-AreBuilt property s hostname thing i =
      (((refl, refl, at6), ((refl, refl, at7), tt)), ((refl, tt), (tt, tt)))
  http_forms-AreBuilt action s hostname thing i = (((refl, refl, at8), tt), (tt, tt))
  http_forms-AreBuilt event s hostname thing i = (((refl, refl, at9), tt), (tt, tt))

  coap_forms-AreBuilt :
      (k : Kind) (s : Server) (hostname thing : String) (i : Interaction)
      → AreBuilt coap i (coap_forms env k s hostname thing i)
  unfolding coap_forms same_op
  coap_forms-AreBuilt property s hostname thing i = (
    ((refl, refl, at1), ((refl, refl, at2), ((refl, refl, at3), tt))),
    ((refl, (refl, tt)), ((refl, tt), (tt, tt))),
  )
  coap_forms-AreBuilt action s hostname thing i = (((refl, refl, at4), tt), (tt, tt))
  coap_forms-AreBuilt event s hostname thing i = (((refl, refl, at5), tt), (tt, tt))

  mqtt_forms-AreBuilt :
      (k : Kind) (s : Server) (thing : String) (i : Interaction)
      → AreBuilt mqtt i (mqtt_forms env k s thing i)
  unfolding mqtt_forms same_op
  mqtt_forms-AreBuilt property s thing i = (
    ((refl, refl, at1), ((refl, refl, at2), ((refl, refl, at3), tt))),
    ((refl, (refl, tt)), ((refl, tt), (tt, tt))),
  )
  mqtt_forms-AreBuilt action s thing i = (((refl, refl, at4), tt), (tt, tt))
  mqtt_forms-AreBuilt event s thing i = (((refl, refl, at5), tt), (tt, tt))

  websocket_forms-AreBuilt :
      (heap : Heap) (s : Server) (hostname : String) (i : Interaction) (fs : List Form)
      → websocket_forms env heap s hostname i ≡ ok fs
      → AreBuilt websockets i fs
  unfolding websocket_forms new_form
  websocket_forms-AreBuilt heap s hostname i fs e =
      let (r, found_r, rest) =
        >>=-eq-ok (or_raise (find_by_interaction heap i s.things) value_error)
          (λ x. base_url_of env websockets heap s hostname (heap x) >>= λ base.
            ok (new_form i websockets base absent ∷ []))
          e in
      let (base, known, last) =
        >>=-eq-ok (base_url_of env websockets heap s hostname (heap r))
          (λ base. ok (new_form i websockets base absent ∷ [])) rest in
      let same : (new_form i websockets base absent ∷ []) ≡ fs = cc in
      rw (← same) (((refl, refl, inl refl), tt), (tt, tt))

  forms_of-AreBuilt :
      (p : Protocol) (heap : Heap) (s : Server) (hostname : String) (i : Interaction)
      (fs : List Form)
      → forms_of env p heap s hostname i ≡ ok fs
      → AreBuilt p i fs
  unfolding forms_of
  forms_of-AreBuilt http heap s hostname i fs e =
      rw (← ok-injective e)
        (http_forms-AreBuilt (interaction_type i) s hostname (thing_url_name env (heap i.thing)) i)
  forms_of-AreBuilt coap heap s hostname i fs e =
      rw (← ok-injective e)
        (coap_forms-AreBuilt (interaction_type i) s hostname (thing_url_name env (heap i.thing)) i)
  forms_of-AreBuilt mqtt heap s hostname i fs e =
      rw (← ok-injective e)
        (mqtt_forms-AreBuilt (interaction_type i) s (thing_url_name env (heap i.thing)) i)
  forms_of-AreBuilt websockets heap s hostname i fs e =
      websocket_forms-AreBuilt heap s hostname i fs e

  -- Whatever the class of the server, the forms that it builds, where it does not raise, belong to
  -- the interaction, carry the server's protocol, and differ from one another in `op`.
  pub build_forms-AreBuilt :
      (heap : Heap) (s : Server) (hostname : String) (i : Interaction) (fs : List Form)
      → build_forms env heap s hostname i ≡ ok fs
      → AreBuilt s.protocol i fs
  unfolding build_forms
  build_forms-AreBuilt heap s hostname i fs e = forms_of-AreBuilt s.protocol heap s hostname i fs e

  known_thing :
      (heap : Heap) (set : ThingSet) (r : ℕ)
      → In r (values set)
      → found (find_by_thing_id env heap (heap r).id set) ≡ true
  unfolding find_by_thing_id
  known_thing heap set r m =
      let (x, e) =
        next-some (is_thing_match env heap (heap r).id) (values set) r m
          (is_thing_match-id env heap r) in
      rw e

  websocket_forms_ok :
      (heap : Heap) (s : Server) (hostname : String) (i : Interaction)
      → In i.thing (values s.things)
      → ((x : ℕ) → In x (values s.things) → (heap x).ident ≡ x)
      → (fs : List Form) × (websocket_forms env heap s hostname i ≡ ok fs)
  unfolding websocket_forms find_by_interaction base_url_of
  websocket_forms_ok heap s hostname i m ids =
      let p : ℕ → Bool = λ x. (heap x).ident is i.thing in
      let (x, e) = next-some p (values s.things) i.thing m ((is_iff _ _).1 (ids i.thing m)) in
      let there : In x (values s.things) = next-In p (values s.things) x e in
      (
        new_form i websockets
              (cat (
                scheme s
                ∷ "://"
                ∷ rstrip hostname
                ∷ ":"
                ∷ s.port
                ∷ "/"
                ∷ thing_url_name env (heap x)
                ∷ []))
              absent
            ∷ [],
        rw (e, known_thing heap s.things x there),
      )

  -- A server whose ExposedThings are at their places builds forms, without raising, for each
  -- interaction of a Thing that it has.
  pub build_forms_ok :
      (heap : Heap) (s : Server) (hostname : String) (i : Interaction)
      → In i.thing (values s.things)
      → ((x : ℕ) → In x (values s.things) → (heap x).ident ≡ x)
      → (fs : List Form) × (build_forms env heap s hostname i ≡ ok fs)
  unfolding build_forms
  build_forms_ok heap s hostname i m ids = by_protocol s.protocol
    where
      by_protocol : (p : Protocol) → (fs : List Form) × (forms_of env p heap s hostname i ≡ ok fs)
      by_protocol http = (_, unfold forms_of in refl)
      by_protocol coap = (_, unfold forms_of in refl)
      by_protocol mqtt = (_, unfold forms_of in refl)
      by_protocol websockets = unfold forms_of in websocket_forms_ok heap s hostname i m ids
