-- ===== src/Tests/Messages.antt =====
-- The theorem on messages at a concrete input.
use wot_py.Prelude.{
  String, List, [], ◌∷◌, Bool, true, false, Option, none, some, ◌≡◌, refl, inl, inr, In, ok,
}
use wot_py.Json.{Json, Members, text, integer, object}
use wot_py.Ws.Schemas.{Validator, ChecksRequired, member_at}
use wot_py.Ws.Messages.{Message, response, to_dict, parse_ws_message}
use wot_py.Ws.RoundTrip.{parse_ws_message-to_dict}

-- A validator that looks at the required members only.
abbrev both : Option Json → Bool → Bool
both none b = false
both (some _) b = b

unfoldable has_all : List String → Members → Bool
has_all [] ms = true
has_all (k ∷ ks) ms = both (member_at k ms) (has_all ks ms)

unfoldable lab_validate : Validator
lab_validate s (object ms) = has_all s.required ms
lab_validate s _ = false

both-false : (o : Option Json) → both o false ≡ false
both-false none = refl
both-false (some _) = refl

has_all-missing :
    (k : String) (ks : List String) (ms : Members)
    → In k ks
    → member_at k ms ≡ none
    → has_all ks ms ≡ false
unfolding has_all
has_all-missing k [] ms i h = absurd i
has_all-missing k (j ∷ ks) ms (inl e) h = rw (← e) (rw h refl)
has_all-missing k (j ∷ ks) ms (inr m) h =
    rw (has_all-missing k ks ms m h) (both-false (member_at j ms))

lab-ChecksRequired : ChecksRequired lab_validate
unfolding lab_validate
lab-ChecksRequired s k ms i h = has_all-missing k s.required ms i h

abbrev answer : Message
answer = response (record { result = integer 20; msg_id = text "1" })

answer-valid : lab_validate (wot_py.Ws.RoundTrip.schema_of answer) (to_dict answer) ≡ true
unfolding lab_validate to_dict has_all member_at
answer-valid = refl

parse_ws_message-to_dict_example : parse_ws_message lab_validate (some (to_dict answer)) ≡ ok answer
parse_ws_message-to_dict_example =
    parse_ws_message-to_dict lab_validate answer lab-ChecksRequired answer-valid
