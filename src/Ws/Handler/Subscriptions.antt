-- ===== src/Ws/Handler/Subscriptions.antt =====
-- wotpy/protocols/ws/handler.py: the subscriptions of a connection.
use wot_py.Prelude.{
  String, List, [], ◌∷◌, Option, none, some, Bool, true, false, if◌then◌else◌, ◌==◌, Error, ok, err,
  Dict, get, pop, has, keys, ◌≡◌, ◌≢◌, refl, sym, ap, ◌∙◌, In, Bool-cases, inl, inr, subst,
  type_error, attempt, ◌++◌, get-pop, eq_iff, ne-of-==,
}
use wot_py.Platform.{Platform}
use wot_py.Json.{Json, null, text}
use wot_py.Exposed.{Observable}
use wot_py.Ws.Schemas.{Validator, schema_response, schema_params_dispose}
use wot_py.Ws.Messages.{Request, response, item_at, response_dict, new_response}
use wot_py.Ws.Handler.{
  Handler, send, as_name, dispose_subscription, dispose_all, on_close, write_response, checked,
  dispose_known, handle_dispose,
}

In-keys-pop :
    {V : Type 0} (k j : String) (d : Dict V) → In j (keys (pop k d)) → In j (keys d) × (j ≢ k)
unfolding pop
In-keys-pop k j [] m = absurd m
In-keys-pop k j ((i, v) ∷ d) m = elim (Bool-cases (i == k)) [
  | inl t ↦ let (a, b) = In-keys-pop k j d (rw t at m) in (inr a, b)
  | inr f ↦ elim (rw f at m) [
    | inl e ↦ (inl e, λ p. ne-of-== i k f (sym e ∙ p))
    | inr r ↦ let (a, b) = In-keys-pop k j d r in (inr a, b)
  ]
]

no_keys : {V : Type 0} (d : Dict V) → ((j : String) → In j (keys d) → ⊥) → d ≡ []
no_keys [] h = refl
no_keys ((k, v) ∷ d) h = absurd (h k (inl refl))

dispose_all_lem :
    (ids : List String) (h : Handler)
    → ((j : String) → In j (keys h.subscriptions) → In j ids)
    → dispose_all ids h ≡ record h { subscriptions = [] }
unfolding dispose_all
dispose_all_lem [] h all =
    ap (λ d. record h { subscriptions = d }) (no_keys h.subscriptions (λ j m. all j m))
dispose_all_lem (id ∷ ids) h all = dispose_all_lem ids (dispose_subscription id h) λ j m.
    let (old, other) = In-keys-pop id j h.subscriptions m in
    elim (all j old) [ inl e ↦ absurd (other e) | inr r ↦ r ]

-- When the connection is closed every subscription is disposed, and nothing else changes.
on_close_lem : (h : Handler) → on_close h ≡ record h { subscriptions = [] }
unfolding on_close
on_close_lem h = dispose_all_lem (keys h.subscriptions) h (λ j m. m)

get-disposed :
    (id q : String) (h : Handler)
    → get q (dispose_subscription id h).subscriptions
      ≡ (if id == q then none else get q h.subscriptions)
unfolding dispose_subscription
get-disposed id q h = get-pop id q h.subscriptions

module _ (env : Platform) (validate : Validator) (str : Error → String) where
  write_response-subscriptions :
      (v id : Json) (h : Handler)
      → (write_response env validate str v id h).0.subscriptions ≡ h.subscriptions
  unfolding write_response new_response send
  write_response-subscriptions v id h =
      go (validate schema_response (response_dict (record { result = v; msg_id = id })))
    where
      go :
          (b : Bool)
          → (attempt
              (if b then ok (record { result = v; msg_id = id }) else err type_error)
              h
              (λ m. (record h { sent = h.sent ++ response m ∷ [] }, none))).0.subscriptions
            ≡ h.subscriptions
      go true = refl
      go false = refl

  get-dispose_known :
      (id q : String) (msg_id : Json) (h : Handler)
      → get q (dispose_known env validate str id msg_id h).0.subscriptions
        ≡ (if id == q then none else get q h.subscriptions)
  unfolding dispose_known has
  get-dispose_known id q msg_id h = go (get id h.subscriptions) refl
    where
      go :
          (o : Option Observable)
          → get id h.subscriptions ≡ o
          → get q
              (if elim o [ none ↦ false | some _ ↦ true ]
                then write_response env validate str (text id) msg_id (dispose_subscription id h)
                else write_response env validate str null msg_id h).0.subscriptions
            ≡ (if id == q then none else get q h.subscriptions)
      go (some o) e =
          ap (λ d. get q d)
            (write_response-subscriptions (text id) msg_id (dispose_subscription id h))
          ∙ get-disposed id q h
      go none e =
          ap (λ d. get q d) (write_response-subscriptions null msg_id h)
          ∙ elim (Bool-cases (id == q)) [
            | inl t ↦ rw t (subst (λ k. get k h.subscriptions ≡ none) ((eq_iff id q).0 t) e)
            | inr f ↦ rw f refl
          ]

  -- A request with valid parameters to dispose a subscription takes that one out, if it is there,
  -- and no other.
  pub get-handle_dispose :
      (id q : String) (req : Request) (h : Handler)
      → validate schema_params_dispose req.params ≡ true
      → item_at "subscription" req.params ≡ ok (text id)
      → get q (handle_dispose env validate str req h).0.subscriptions
        ≡ (if id == q then none else get q h.subscriptions)
  unfolding handle_dispose checked as_name
  get-handle_dispose id q req h v e = rw (v, e) (get-dispose_known id q req.msg_id h)
