-- ===== src/Ws/Handler/Answers.antt =====
-- wotpy/protocols/ws/handler.py: what the parts of the handlers send.
use wot_py.Prelude.{
  ℕ, String, [], ◌∷◌, ◌++◌, Option, none, some, Bool, true, false, if◌then◌else◌, Error,
  attribute_error, validation, Result, ok, err, Outcome, and_then, ◌≡◌, refl, ap, ◌∙◌, In, get, inl,
  has,
}
use wot_py.Platform.{Platform}
use wot_py.Json.{Json, null, text, negative}
use wot_py.Exposed.{ExposedThing, Observable, Call}
use wot_py.Ws.Schemas.{
  Schema, Validator, schema_response, schema_error, schema_params_dispose, leaf, has_type,
  string_type,
}
use wot_py.Ws.Messages.{
  Message, Request, request, failure, response, emitted_item, response_dict, error_dict,
  new_response, new_error, item_at,
}
use wot_py.Ws.Handler.{
  Handler, invalid_method_params, send, as_name, dispose_subscription, subscribe, ask, observe,
  write_error, write_response, reply, checked, subscribed, answer_and_subscribe, dispose_known,
  handle_dispose,
}

abbrev pub message_id : Message → Json
message_id (request m) = m.msg_id
message_id (failure m) = m.msg_id
message_id (response m) = m.msg_id
message_id (emitted_item m) = null

-- The documented meaning of `required` with a `type` of string.
abbrev pub ChecksText : Validator → Type 0
ChecksText validate =
    (s : Schema) (k : String) (j : Json)
    → validate s j ≡ true
    → In k s.required
    → get k s.properties ≡ some (leaf (has_type string_type))
    → (t : String) × (item_at k j ≡ ok (text t))

-- Responses and errors with this ID are valid.
pub record IsRepliable (validate : Validator) (id : Json) : Type 0 where
  pub responses :
      (v : Json)
      → validate schema_response (response_dict (record { result = v; msg_id = id })) ≡ true
  pub errors :
      (s : String) (n : ℕ) (d : Json)
      → validate schema_error
          (error_dict (record { message = text s; code = negative n; data_item = d; msg_id = id }))
        ≡ true

-- One message with the ID was sent.
abbrev pub IsAnswered : Json → Handler → Handler → Type 0
IsAnswered id h g = (m : Message) × (g.sent ≡ h.sent ++ m ∷ []) × (message_id m ≡ id)

-- Before the answer nothing was sent.
from_same : (id : Json) (h k g : Handler) → k.sent ≡ h.sent → IsAnswered id k g → IsAnswered id h g
from_same id h k g e (m, s, i) = (m, s ∙ ap (λ l. l ++ m ∷ []) e, i)

module _ (env : Platform) (validate : Validator) (str : Error → String) where
  pub write_error-IsAnswered :
      (e : Error) (n : ℕ) (id d : Json) (h : Handler)
      → IsRepliable validate id
      → IsAnswered id h (write_error env validate str e (negative n) id d h).0
  unfolding write_error new_error send
  write_error-IsAnswered e n id d h r = rw (r.errors (str e) n d) (_, refl, refl)

  pub write_response-IsAnswered :
      (v id : Json) (h : Handler)
      → IsRepliable validate id
      → IsAnswered id h (write_response env validate str v id h).0
  unfolding write_response new_response send
  write_response-IsAnswered v id h r = rw (r.responses v) (_, refl, refl)

  pub reply-IsAnswered :
      (id : Json) (p : Handler × Result Json)
      → IsRepliable validate id
      → IsAnswered id p.0 (reply env validate str id p).0
  unfolding reply
  reply-IsAnswered id (h, ok v) r = write_response-IsAnswered v id h r
  reply-IsAnswered id (h, err e) r = write_error-IsAnswered e 32603 id null h r

  pub ask-sent : (c : ExposedThing → Call) (h : Handler) → (ask c h).0.sent ≡ h.sent
  unfolding ask
  ask-sent c h = go h.exposed
    where
      go :
          (o : Option ExposedThing)
          → (elim o as (λ _. Handler × Result Json) [
            | none ↦ (record h { closed = true }, err attribute_error)
            | some x ↦ let (y, r) = c x in (record h { exposed = some y }, r)
          ]).0.sent
            ≡ h.sent
      go none = refl
      go (some x) = refl

  pub asked-IsAnswered :
      (id : Json) (c : ExposedThing → Call) (h : Handler)
      → IsRepliable validate id
      → IsAnswered id h (reply env validate str id (ask c h)).0
  asked-IsAnswered id c h r =
      from_same id h (ask c h).0 (reply env validate str id (ask c h)).0 (ask-sent c h)
        (reply-IsAnswered id (ask c h) r)

  pub observe-sent :
      (f : ExposedThing → Result Observable) (h : Handler) → (observe f h).0.sent ≡ h.sent
  unfolding observe
  observe-sent f h = go h.exposed
    where
      go :
          (o : Option ExposedThing)
          → (elim o as (λ _. Handler × Result Observable) [
            | none ↦ (record h { closed = true }, err attribute_error)
            | some x ↦ (h, f x)
          ]).0.sent
            ≡ h.sent
      go none = refl
      go (some x) = refl

  pub subscribed-sent :
      (id : String) (p : Handler × Result Observable)
      → (subscribed env validate str id p).0.sent ≡ p.0.sent
  unfolding subscribe
  subscribed-sent id (h, ok o) = refl
  subscribed-sent id (h, err e) = refl

  -- What follows the answer sends nothing.
  pub after_answer :
      (id : Json) (h : Handler) (o : Outcome Handler) (k : Handler → Outcome Handler)
      → ((g : Handler) → (k g).0.sent ≡ g.sent)
      → IsAnswered id h o.0
      → IsAnswered id h (and_then o k).0
  after_answer id h (g, none) k q (m, s, i) = (m, q g ∙ s, i)
  after_answer id h (g, some e) k q a = a

  pub answer_and_subscribe-IsAnswered :
      (sub : String) (id : Json) (f : ExposedThing → Result Observable) (h : Handler)
      → IsRepliable validate id
      → IsAnswered id h (answer_and_subscribe env validate str sub id f h).0
  unfolding answer_and_subscribe
  answer_and_subscribe-IsAnswered sub id f h r =
      after_answer id h (write_response env validate str (text sub) id h) _
        (λ g. subscribed-sent sub (observe f g) ∙ observe-sent f g)
        (write_response-IsAnswered (text sub) id h r)

  -- Parameters that are not valid are answered by an error.
  pub checked-IsAnswered :
      (s : Schema) (req : Request) (h : Handler) (rest : Outcome Handler)
      → IsRepliable validate req.msg_id
      → (validate s req.params ≡ true → IsAnswered req.msg_id h rest.0)
      → IsAnswered req.msg_id h (checked env validate str s req h rest).0
  unfolding checked
  checked-IsAnswered s req h rest r a = go (validate s req.params) refl
    where
      go :
          (b : Bool)
          → validate s req.params ≡ b
          → IsAnswered req.msg_id h
              (if b
                then rest
                else write_error env validate str validation invalid_method_params req.msg_id null
                    h).0
      go true e = a e
      go false e = write_error-IsAnswered validation 32602 req.msg_id null h r

  pub dispose_subscription-sent :
      (sub : String) (h : Handler) → (dispose_subscription sub h).sent ≡ h.sent
  unfolding dispose_subscription
  dispose_subscription-sent sub h = refl

  pub dispose_known-IsAnswered :
      (sub : String) (id : Json) (h : Handler)
      → IsRepliable validate id
      → IsAnswered id h (dispose_known env validate str sub id h).0
  unfolding dispose_known
  dispose_known-IsAnswered sub id h r = go (has sub h.subscriptions)
    where
      go :
          (b : Bool)
          → IsAnswered id h
              (if b
                then write_response env validate str (text sub) id (dispose_subscription sub h)
                else write_response env validate str null id h).0
      go true =
          from_same id h (dispose_subscription sub h)
            (write_response env validate str (text sub) id (dispose_subscription sub h)).0
            (dispose_subscription-sent sub h)
            (write_response-IsAnswered (text sub) id (dispose_subscription sub h) r)
      go false = write_response-IsAnswered null id h r

  pub handle_dispose-IsAnswered :
      (req : Request) (h : Handler)
      → ChecksText validate
      → IsRepliable validate req.msg_id
      → IsAnswered req.msg_id h (handle_dispose env validate str req h).0
  unfolding handle_dispose as_name get
  handle_dispose-IsAnswered req h c r = checked-IsAnswered schema_params_dispose req h _ r λ valid.
      let (t, e) = c schema_params_dispose "subscription" req.params valid (inl refl) refl in
      rw e (dispose_known-IsAnswered t req.msg_id h r)
