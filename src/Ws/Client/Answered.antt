-- ===== src/Ws/Client/Answered.antt =====
-- wotpy/protocols/ws/client.py: a request that returns a value was answered by a response with its
-- own ID, on its own URL.
use wot_py.Prelude.{
  some-injective, ℕ, String, Option, none, some, Bool, true, false, ◌is◌, if◌then◌else◌, ◌≡◌, ◌≢◌,
  refl, sym, ap, ◌∙◌, subst, inl, inr, In, get, arith, Bool-cases, Option-cases, is_iff,
  attribute_error,
}
use wot_py.Json.{Json}
use wot_py.Exposed.{set_at}
use wot_py.Ws.Messages.{Message}
use wot_py.Ws.Client.{
  WsClient, Ending, gave, raised, timed_out, loop_begin, receive, loop_end, stop_begin,
  raise_message, message_id, ending_of, ending_at, new_client,
}
use wot_py.Ws.Client.Steps.{
  Tasks, Phase, connecting, ready, writing, written, waiting, closing, draining, finished, System,
  initial, moved, received, notify, Step, share, connect, connect_ok, connect_fails, loop_starts,
  send, send_nothing, write_ok, write_lost, write_fails, wait, receives, time_runs_out, wakes,
  leave, stop, stop_unconnected, loop_stops, drained, Reach, here, next,
}
use wot_py.Ws.Client.Stored.{
  AreStored, KeepsMessages, ending, init_begin-KeepsMessages, init_end-KeepsMessages,
  keeps-AreStored, loop_begin-KeepsMessages, loop_end-KeepsMessages, receive-AreStored,
  send_begin-KeepsMessages, send_end-KeepsMessages, stop_begin-KeepsMessages, stop_end-AreStored,
  stop_signal-KeepsMessages,
}

-- A request that ends with a value was answered.
abbrev IsAnsweredBy : Tasks → System → ℕ → Json → Type 0
IsAnsweredBy tasks s k v =
    (m : Message) × In (tasks.url k, m) s.history
    × (message_id m ≡ some (tasks.msg_id k))
    × (ending_of m ≡ gave v)

record IsSound (tasks : Tasks) (s : System) : Type 0 where
  stored : AreStored s.history s.client
  answered : (k : ℕ) (v : Json) → ending (s.phase k) ≡ some (gave v) → IsAnsweredBy tasks s k v

moved-IsSound :
    (tasks : Tasks) (k : ℕ) (p : Phase) (lock : Option ℕ) (c : WsClient) (s : System)
    → AreStored s.history c
    → ((v : Json) → ending p ≡ some (gave v) → IsAnsweredBy tasks s k v)
    → IsSound tasks s
    → IsSound tasks (moved k p lock c s)
unfolding moved set_at
moved-IsSound tasks k p lock c s stored new i = record {
  stored = stored;
  answered = λ j v e. elim (Bool-cases (j is k)) [
    | inl t ↦ subst (λ n. IsAnsweredBy tasks s n v) (sym ((is_iff j k).0 t)) (new v (rw t at e))
    | inr f ↦ i.answered j v (rw f at e)
  ];
}

client-IsSound :
    (tasks : Tasks) (d : WsClient) (s : System)
    → KeepsMessages s.client d
    → IsSound tasks s
    → IsSound tasks (record s { client = d })
client-IsSound tasks d s k i = record {
  stored = keeps-AreStored s.history s.client d k i.stored;
  answered = i.answered;
}

raise_message_lem :
    (tasks : Tasks) (s : System) (k : ℕ) (v : Json)
    → AreStored s.history s.client
    → raise_message (tasks.url k) (tasks.msg_id k) s.client ≡ gave v
    → IsAnsweredBy tasks s k v
unfolding raise_message
raise_message_lem tasks s k v stored e =
    elim (Option-cases (s.client.at_url (tasks.url k)).messages) [
      | inl n ↦ absurd (ground (arith, rw (n, raise_message) at e))
      | inr (ms, there) ↦ elim (Option-cases (get (tasks.msg_id k) ms)) [
        | inl n ↦ absurd (not_given (rw n at (rw (there, raise_message) at e)))
        | inr (m, g) ↦
            let (a, b) = stored (tasks.url k) (tasks.msg_id k) m (rw there g) in
            (m, a, b, rw g at (rw (there, raise_message) at e))
      ]
    ]
  where
    not_given : ending_at none ≡ gave v → ⊥
    not_given x = cc

notified-ending :
    (tasks : Tasks) (u id : String) (phase : ℕ → Phase) (k : ℕ) (b : Bool) (r : Ending)
    → ending ((if b then notify tasks u id phase else phase) k) ≡ some r
    → ending (phase k) ≡ some r
notified-ending tasks u id phase k false r e = e
notified-ending tasks u id phase k true r e = unfold notify in ground (arith, e)

received-ending :
    (tasks : Tasks) (u id : String) (m : Message) (s : System) (k : ℕ) (r : Ending)
    → ending ((received tasks u id m s).phase k) ≡ some r
    → ending (s.phase k) ≡ some r
unfolding received
received-ending tasks u id m s k r e =
    notified-ending tasks u id s.phase k (receive u id m s.client).1 r e

received-IsSound :
    (tasks : Tasks) (u id : String) (m : Message) (s : System)
    → message_id m ≡ some id
    → IsSound tasks s
    → IsSound tasks (received tasks u id m s)
unfolding received
received-IsSound tasks u id m s e i = record {
  stored = receive-AreStored s.history u id m s.client e i.stored;
  answered = λ k v x.
      let (n, a, b, c) = i.answered k v (received-ending tasks u id m s k (gave v) x) in
      (n, inr a, b, c);
}

-- The three ways in which a step moves a request: to a phase that settles nothing, to a phase with
-- an ending that is no value, and to a later phase with the same ending.
module _ (tasks : Tasks) (k : ℕ) (p : Phase) (lock : Option ℕ) (c : WsClient) (s : System)
    (i : IsSound tasks s) where
  goes_on : KeepsMessages s.client c → ending p ≡ none → IsSound tasks (moved k p lock c s)
  goes_on keeps e =
      moved-IsSound tasks k p lock c s (keeps-AreStored s.history s.client c keeps i.stored)
        (λ v f. absurd (not_both_ends e f)) i
    where
      not_both_ends : {v : Json} → ending p ≡ none → ending p ≡ some (gave v) → ⊥
      not_both_ends e f = cc

  fails :
      (r : Ending)
      → ((v : Json) → r ≢ gave v)
      → ending p ≡ some r
      → KeepsMessages s.client c
      → IsSound tasks (moved k p lock c s)
  fails r n e keeps =
      moved-IsSound tasks k p lock c s (keeps-AreStored s.history s.client c keeps i.stored)
        (λ v f. absurd (n v (some-injective (sym e ∙ f)))) i

  ends :
      (r : Ending)
      → ending p ≡ some r
      → ending (s.phase k) ≡ some r
      → AreStored s.history c
      → IsSound tasks (moved k p lock c s)
  ends r e old stored =
      moved-IsSound tasks k p lock c s stored (λ v f. i.answered k v (old ∙ (sym e ∙ f))) i

same : (c : WsClient) → KeepsMessages c c
same c = record { kept = λ u. refl }

-- Every step keeps the stored messages and the values given true to what was received.
Step-IsSound : (tasks : Tasks) (s t : System) → Step tasks s t → IsSound tasks s → IsSound tasks t
Step-IsSound tasks s _ (share k p h b) i =
    goes_on tasks k ready none _ s i
      (init_begin-KeepsMessages (tasks.url k) (tasks.ref_id k) s.client) refl
Step-IsSound tasks s _ (connect k p h b) i =
    goes_on tasks k connecting (some k) _ s i
      (init_begin-KeepsMessages (tasks.url k) (tasks.ref_id k) s.client) refl
Step-IsSound tasks s _ (connect_ok k p) i =
    goes_on tasks k ready none _ s i (init_end-KeepsMessages (tasks.url k) s.client) refl
Step-IsSound tasks s _ (connect_fails k e p) i =
    fails tasks k (closing (raised e)) none s.client s i (raised e) (λ v f. cc) refl (same s.client)
Step-IsSound tasks s _ (loop_starts u p) i =
    client-IsSound tasks (loop_begin u s.client) s (loop_begin-KeepsMessages u s.client) i
Step-IsSound tasks s _ (send k c p e) i =
    goes_on tasks k writing s.holder c s i (send_begin-KeepsMessages (tasks.url k) s.client c e)
      refl
Step-IsSound tasks s _ (send_nothing k p e) i =
    fails tasks k (closing (raised attribute_error)) s.holder s.client s i (raised attribute_error)
      (λ v f. cc) refl (same s.client)
Step-IsSound tasks s _ (write_ok k c p e) i =
    goes_on tasks k written s.holder c s i
      (send_end-KeepsMessages (tasks.url k) (tasks.msg_id k) s.client c e) refl
Step-IsSound tasks s _ (write_lost k e p f) i =
    fails tasks k (closing (raised e)) s.holder s.client s i (raised e) (λ v g. cc) refl
      (same s.client)
Step-IsSound tasks s _ (write_fails k e p) i =
    fails tasks k (closing (raised e)) s.holder s.client s i (raised e) (λ v g. cc) refl
      (same s.client)
Step-IsSound tasks s _ (wait k p) i =
    goes_on tasks k waiting s.holder s.client s i (same s.client) refl
Step-IsSound tasks s _ (receives u id m l e) i = received-IsSound tasks u id m s e i
Step-IsSound tasks s _ (time_runs_out k p t) i =
    fails tasks k (closing timed_out) s.holder s.client s i timed_out (λ v f. cc) refl
      (same s.client)
Step-IsSound tasks s _ (wakes k p) i =
    moved-IsSound tasks k (closing (raise_message (tasks.url k) (tasks.msg_id k) s.client)) s.holder
      s.client s i.stored (λ v f. raise_message_lem tasks s k v i.stored (some-injective f)) i
Step-IsSound tasks s _ (leave k r p h b) i =
    ends tasks k (finished r) none _ s i r refl (ap ending p) (
      keeps-AreStored s.history s.client _
        (stop_begin-KeepsMessages (tasks.url k) (tasks.ref_id k) s.client) i.stored)
Step-IsSound tasks s _ (stop k r b p h n e) i =
    let c = (stop_begin (tasks.url k) (tasks.ref_id k) s.client).0 in
    ends tasks k (draining r) (some k) _ s i r refl (ap ending p) (
      keeps-AreStored s.history c _ (stop_signal-KeepsMessages (tasks.url k) c) (
        keeps-AreStored s.history s.client c
          (stop_begin-KeepsMessages (tasks.url k) (tasks.ref_id k) s.client) i.stored))
Step-IsSound tasks s _ (stop_unconnected k r p h n e) i =
    let c = (stop_begin (tasks.url k) (tasks.ref_id k) s.client).0 in
    ends tasks k (finished r) none _ s i r refl (ap ending p) (
      stop_end-AreStored s.history (tasks.url k) c (
        keeps-AreStored s.history s.client c
          (stop_begin-KeepsMessages (tasks.url k) (tasks.ref_id k) s.client) i.stored))
Step-IsSound tasks s _ (loop_stops u l e) i =
    client-IsSound tasks (loop_end u s.client) s (loop_end-KeepsMessages u s.client) i
Step-IsSound tasks s _ (drained k r p e) i =
    ends tasks k (finished r) none _ s i r refl (ap ending p)
      (stop_end-AreStored s.history (tasks.url k) s.client i.stored)

Reach-IsSound : (tasks : Tasks) (s t : System) → Reach tasks s t → IsSound tasks s → IsSound tasks t
Reach-IsSound tasks s _ here i = i
Reach-IsSound tasks s _ (next {t} {u} r st) i =
    Step-IsSound tasks t u st (Reach-IsSound tasks s t r i)

initial-IsSound : (tasks : Tasks) → IsSound tasks initial
unfolding initial new_client get
initial-IsSound tasks = record { stored = λ u id m g. cc; answered = λ k v e. cc }

-- In every interleaving of requests on one client: a request that ends with a value was answered by
-- a response with that value as its result, under the ID of the request, which the client received
-- on the URL of the request.
pub value_was_received :
    (tasks : Tasks) (s : System) (k : ℕ) (v : Json)
    → Reach tasks initial s
    → s.phase k ≡ finished (gave v)
    → (m : Message) × In (tasks.url k, m) s.history
      × (message_id m ≡ some (tasks.msg_id k))
      × (ending_of m ≡ gave v)
value_was_received tasks s k v r e =
    (Reach-IsSound tasks initial s r (initial-IsSound tasks)).answered k v (ap ending e)
