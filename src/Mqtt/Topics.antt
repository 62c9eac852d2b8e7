-- ===== src/Mqtt/Topics.antt =====
-- wotpy/protocols/mqtt/handlers: the topics of the property, action and event handlers, and how the
-- client derives the topic of an answer from the topic of its request.
use Prim.Native.Char.{Char, code}
use Prim.Native.String
use Prim.Native.String.{String}
use wot_py.Prelude.{
  ℕ, zero, suc, List, [], ◌∷◌, Option, none, some, Bool, true, false, ◌is◌, if◌then◌else◌, ◌≡◌,
  refl, ap, ◌∙◌, inl, inr, index_error, Result, ok, ◌>>=◌, or_raise, Bool-cases, arith,
}
use text.Mathlib.TextLemmas.{nil-append, cons-append, append_assoc, append-nil}
use wot_py.Server.{cat}

-- the first piece, one character longer
abbrev grow : Char → List String → List String
grow c [] = String.◌∷◌ c "" ∷ []
grow c (p ∷ ps) = String.◌∷◌ c p ∷ ps

-- `s.split("/")`
unfoldable pub split : String → List String
split String.[] = "" ∷ []
split (String.◌∷◌ c s) = let rest = split s in if code c is b'/' then "" ∷ rest else grow c rest

-- `xs[-1]`, `xs[-2]` and so on, counted from zero
abbrev nth {ℓ} : {A : Type ℓ} → ℕ → List A → Option A
nth n [] = none
nth zero (x ∷ xs) = some x
nth (suc n) (x ∷ xs) = nth n xs

abbrev onto {ℓ} : {A : Type ℓ} → List A → List A → List A
onto acc [] = acc
onto acc (x ∷ xs) = onto (x ∷ acc) xs

unfoldable pub from_end {ℓ} : {A : Type ℓ} → ℕ → List A → Result A
from_end n xs = or_raise (nth n (onto [] xs)) index_error

-- the parts that the two class methods take: servient ID, Thing and interaction
unfoldable pub topic_parts : String → Result (String × String × String)
unfolding split from_end
topic_parts topic = do
  let pieces = split topic
  servient_id ← from_end 4 pieces
  thing ← from_end 1 pieces
  name ← from_end 0 pieces
  ok (servient_id, thing, name)

-- "{}<path>{}/{}".format(servient_id, thing_name, interaction_name)
unfoldable pub topic_of : String → String → String → String → String
unfolding cat
topic_of path servient_id thing name = cat (servient_id ∷ path ∷ thing ∷ "/" ∷ name ∷ [])

abbrev pub requests_path : String
requests_path = "/property/requests/"

abbrev pub updates_path : String
updates_path = "/property/updates/"

abbrev pub ack_path : String
ack_path = "/property/ack/"

abbrev pub invocation_path : String
invocation_path = "/action/invocation/"

abbrev pub result_path : String
result_path = "/action/result/"

abbrev pub event_path : String
event_path = "/event/"

-- `PropertyMQTTHandler.to_write_ack_topic`
unfoldable pub to_write_ack_topic : String → Result String
unfolding topic_parts topic_of
to_write_ack_topic topic = topic_parts topic >>= λ p. ok (topic_of ack_path p.0 p.1 p.2)

-- `ActionMQTTHandler.to_result_topic`
unfoldable pub to_result_topic : String → Result String
unfolding topic_parts topic_of
to_result_topic topic = topic_parts topic >>= λ p. ok (topic_of result_path p.0 p.1 p.2)

abbrev slash : Char
slash = "/"

abbrev hash : Char
hash = "#"

unfoldable pub has_slash : String → Bool
has_slash String.[] = false
has_slash (String.◌∷◌ c s) = if code c is b'/' then true else has_slash s

-- A text without a slash.
abbrev pub HasNoSlash : String → Type 0
HasNoSlash s = has_slash s ≡ false

slash-append : (rest : String) → String.◌++◌ "/" rest ≡ String.◌∷◌ slash rest
slash-append rest = cons-append slash "" rest ∙ ap (String.◌∷◌ slash) (nil-append rest)

-- A piece without a slash comes back whole, in front of the pieces of what follows the slash.
split-cons :
    (s rest : String) → HasNoSlash s → split (String.◌++◌ s (String.◌++◌ "/" rest)) ≡ s ∷ split rest
unfolding split has_slash
split-cons String.[] rest h = rw (nil-append, slash-append rest) refl
split-cons (String.◌∷◌ c s) rest h = elim (Bool-cases (code c is b'/')) [
  | inl t ↦ absurd (ground (arith, t))
  | inr n ↦ rw (cons-append c s, split-cons s rest (rw n at h), n) refl
]

split-piece : (s : String) → HasNoSlash s → split s ≡ s ∷ []
unfolding split has_slash
split-piece String.[] h = refl
split-piece (String.◌∷◌ c s) h = elim (Bool-cases (code c is b'/')) [
  | inl t ↦ absurd (ground (arith, t))
  | inr n ↦ rw (split-piece s (rw n at h), n) refl
]

-- A topic whose path has two pieces is split into its five parts.
pub split-topic_of :
    (path a b servient_id thing name : String)
    → path ≡ String.◌++◌ "/" (String.◌++◌ a (String.◌++◌ "/" (String.◌++◌ b "/")))
    → HasNoSlash a × HasNoSlash b × HasNoSlash servient_id × HasNoSlash thing × HasNoSlash name
    → split (topic_of path servient_id thing name) ≡ servient_id ∷ a ∷ b ∷ thing ∷ name ∷ []
unfolding topic_of cat
split-topic_of path a b servient_id thing name e (ha, hb, hs, ht, hn) =
    simp
      (
        e,
        append_assoc,
        append-nil,
        split-cons servient_id _ hs,
        split-cons a _ ha,
        split-cons b _ hb,
        split-cons thing _ ht,
        split-piece name hn,
      )
      refl

-- A wildcard topic is split into its four parts.
pub split-wildcard :
    (path a b servient_id : String)
    → path ≡ String.◌++◌ "/" (String.◌++◌ a (String.◌++◌ "/" (String.◌++◌ b "/#")))
    → HasNoSlash a × HasNoSlash b × HasNoSlash servient_id
    → split (cat (servient_id ∷ path ∷ [])) ≡ servient_id ∷ a ∷ b ∷ "#" ∷ []
unfolding cat split
split-wildcard path a b servient_id e (ha, hb, hs) =
    simp
      (
        e,
        append_assoc,
        append-nil,
        split-cons servient_id _ hs,
        split-cons a _ ha,
        split-cons b (String.◌∷◌ hash "") hb,
      )
      refl

-- The client finds the answers under the topics that the server publishes them on: the topic that
-- it derives from a request for a property or an invocation of an action is the topic of the same
-- servient, Thing and interaction under the path of the answers, where the three have no slash.
pub answer_topics :
    (servient_id thing name : String)
    → HasNoSlash servient_id × HasNoSlash thing × HasNoSlash name
    → (to_write_ack_topic (topic_of requests_path servient_id thing name)
        ≡ ok (topic_of ack_path servient_id thing name))
      × (to_result_topic (topic_of invocation_path servient_id thing name)
          ≡ ok (topic_of result_path servient_id thing name))
unfolding to_write_ack_topic to_result_topic topic_parts from_end has_slash
answer_topics servient_id thing name (hs, ht, hn) = (
  rw
      (split-topic_of requests_path "property" "requests" servient_id thing name refl
        (refl, refl, hs, ht, hn))
      refl,
  rw
      (split-topic_of invocation_path "action" "invocation" servient_id thing name refl
        (refl, refl, hs, ht, hn))
      refl,
)
