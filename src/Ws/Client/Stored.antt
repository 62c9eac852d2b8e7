-- ===== src/Ws/Client/Stored.antt =====
-- wotpy/protocols/ws/client.py: the messages that the client has stored were received.
use wot_py.Prelude.{
  some-injective, String, List, ◌∷◌, Option, none, some, ◌==◌, if◌then◌else◌, ◌≡◌, refl, sym, ap,
  ◌∙◌, subst, inl, inr, In, Dict, get, put, get-put, eq_iff, arith, Bool-cases, Option-cases, ok,
  ok-injective,
}
use wot_py.Ws.Messages.{Message}
use wot_py.Ws.Client.{
  WsClient, Connection, Ending, put_url, or_no_messages, init_begin, init_end, send_begin, send_end,
  loop_begin, receive, loop_end, stop_begin, stop_signal, stop_end, message_id,
}
use wot_py.Ws.Client.Steps.{Phase, closing, draining, finished}

abbrev messages_at : String → WsClient → Dict Message
messages_at u c = or_no_messages (c.at_url u).messages

-- What a request ends with, once that is settled.
abbrev pub ending : Phase → Option Ending
ending (closing r) = some r
ending (draining r) = some r
ending (finished r) = some r
ending _ = none

-- Every stored message was received for its URL and has the ID that it is stored under.
abbrev pub AreStored : List (String × Message) → WsClient → Type 0
AreStored history c =
    (u id : String) (m : Message)
    → get id (messages_at u c) ≡ some m
    → In (u, m) history × (message_id m ≡ some id)

-- A change of one URL that keeps what `f` reads.
pub keeps-put :
    {A : Type 0} (f : Connection → A) (url u : String) (x : Connection) (c : WsClient)
    → f x ≡ f (c.at_url url)
    → f ((put_url url x c).at_url u) ≡ f (c.at_url u)
unfolding put_url
keeps-put f url u x c e = elim (Bool-cases (u == url)) [
  | inl t ↦ rw t (e ∙ ap (λ w. f (c.at_url w)) (sym ((eq_iff u url).0 t)))
  | inr n ↦ rw n refl
]

-- What the operations other than `receive` and `stop_end` do not touch.
pub record KeepsMessages (c d : WsClient) : Type 0 where
  pub kept : (u : String) → messages_at u d ≡ messages_at u c

abbrev messages_of : Connection → Dict Message
messages_of x = or_no_messages x.messages

put-KeepsMessages :
    (url : String) (x : Connection) (c : WsClient)
    → messages_of x ≡ messages_at url c
    → KeepsMessages c (put_url url x c)
put-KeepsMessages url x c e = record { kept = λ u. keeps-put messages_of url u x c e }

pub init_begin-KeepsMessages :
    (url ref : String) (c : WsClient) → KeepsMessages c (init_begin url ref c).0
unfolding init_begin
init_begin-KeepsMessages url ref c = record { kept = λ u. refl }

pub init_end-KeepsMessages : (url : String) (c : WsClient) → KeepsMessages c (init_end url c)
unfolding init_end
init_end-KeepsMessages url c = put-KeepsMessages url _ c refl

pub send_begin-KeepsMessages :
    (url : String) (c d : WsClient) → send_begin url c ≡ some d → KeepsMessages c d
unfolding send_begin
send_begin-KeepsMessages url c d e = elim (Bool-cases (c.at_url url).connected) [
  | inl t ↦ subst (KeepsMessages c) (some-injective (rw t at e)) (put-KeepsMessages url _ c refl)
  | inr f ↦ absurd (ground (arith, f, e))
]

pub send_end-KeepsMessages :
    (url id : String) (c d : WsClient) → send_end url id c ≡ ok d → KeepsMessages c d
unfolding send_end
send_end-KeepsMessages url id c d e = elim (Option-cases (c.at_url url).conditions) [
  | inl n ↦ absurd (ground (arith, n, e))
  | inr (ids, m) ↦
      subst (KeepsMessages c) (ok-injective (rw (m, send_end) at e))
        (put-KeepsMessages url _ c refl)
]

pub loop_begin-KeepsMessages : (url : String) (c : WsClient) → KeepsMessages c (loop_begin url c)
unfolding loop_begin
loop_begin-KeepsMessages url c = elim (Bool-cases (c.at_url url).connected) [
  | inl t ↦ rw t (put-KeepsMessages url _ c refl)
  | inr f ↦ rw f (put-KeepsMessages url _ c refl)
]

pub loop_end-KeepsMessages : (url : String) (c : WsClient) → KeepsMessages c (loop_end url c)
unfolding loop_end
loop_end-KeepsMessages url c = put-KeepsMessages url _ c refl

pub stop_begin-KeepsMessages :
    (url ref : String) (c : WsClient) → KeepsMessages c (stop_begin url ref c).0
unfolding stop_begin
stop_begin-KeepsMessages url ref c = record { kept = λ u. refl }

pub stop_signal-KeepsMessages : (url : String) (c : WsClient) → KeepsMessages c (stop_signal url c)
unfolding stop_signal
stop_signal-KeepsMessages url c = put-KeepsMessages url _ c refl

pub keeps-AreStored :
    (hs : List (String × Message)) (c d : WsClient)
    → KeepsMessages c d
    → AreStored hs c
    → AreStored hs d
keeps-AreStored hs c d k h u id m g = h u id m (rw (k.kept u) at g)

pub stop_end-AreStored :
    (hs : List (String × Message)) (url : String) (c : WsClient)
    → AreStored hs c
    → AreStored hs (stop_end url c)
unfolding stop_end put_url get
stop_end-AreStored hs url c h u id m g = elim (Bool-cases (u == url)) [
  | inl t ↦ absurd (ground (arith, t, g))
  | inr n ↦ h u id m (rw n at g)
]

stored_now :
    (hs : List (String × Message)) (url id : String) (m : Message) (c : WsClient)
    (ms : Dict Message)
    → (c.at_url url).messages ≡ some ms
    → message_id m ≡ some id
    → AreStored hs c
    → AreStored
        ((url, m) ∷ hs)
        (put_url url (record (c.at_url url) { messages = some (put id m ms) }) c)
unfolding put_url
stored_now hs url id m c ms there e h u k n g = elim (Bool-cases (u == url)) [
  | inr f ↦ let (a, b) = h u k n (rw f at g) in (inr a, b)
  | inl t ↦
      let s : u ≡ url = (eq_iff u url).0 t in
      let new : (if id == k then some m else get k ms) ≡ some n =
        sym (get-put id k m ms) ∙ (rw t at g) in
      elim (Bool-cases (id == k)) [
        | inl same ↦
            let x : m ≡ n = some-injective (rw same at new) in
            (
              inl (λ y. (s y, sym x y)),
              subst (λ w. message_id w ≡ some k) x (e ∙ ap some ((eq_iff id k).0 same)),
            )
        | inr other ↦ let (a, b) = h u k n (rw s (rw there (rw other at new))) in (inr a, b)
      ]
]

pub receive-AreStored :
    (hs : List (String × Message)) (url id : String) (m : Message) (c : WsClient)
    → message_id m ≡ some id
    → AreStored hs c
    → AreStored ((url, m) ∷ hs) (receive url id m c).0
unfolding receive put_url
receive-AreStored hs url id m c e h u k n g = elim (Option-cases (c.at_url url).messages) [
  | inl none_there ↦ let (a, b) = h u k n (rw (none_there, receive) at g) in (inr a, b)
  | inr (ms, there) ↦ stored_now hs url id m c ms there e h u k n (rw (there, receive) at g)
]
