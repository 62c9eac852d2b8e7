-- ===== src/Ws/Client/Effects.antt =====
-- wotpy/protocols/ws/client.py: what single operations and a notification leave of what a request needs.
use wot_py.Prelude.{
  some-injective, ℕ, String, Option, some, true, false, ◌&&◌, ◌==◌, ◌≡◌, refl, sym, ap, ◌∙◌, inl,
  inr, get, has, get-put, eq_iff, eq_refl, arith, Bool-cases, Option-cases, ok,
}
use wot_py.Refs.{add_ref}
use wot_py.Ws.Messages.{Message}
use wot_py.Ws.Client.{
  WsClient, Ending, put_url, send_end, loop_begin, receive, raise_message, ending_of,
}
use wot_py.Ws.Client.Kept.{holds, uses, sends, is_some, has_conditions, has_message}
use wot_py.Ws.Client.Steps.{
  Tasks, Phase, connecting, waiting, woken, draining, System, notify, is_waiting,
}
use wot_py.Ws.Client.Supported.{HasSupport, using_support}

pub send_end-counter :
    (url id : String) (c d : WsClient) → send_end url id c ≡ ok d → d.counter ≡ c.counter
unfolding send_end put_url
send_end-counter url id c d e = ground (arith, e)

pub receive-counter :
    (url id : String) (m : Message) (c : WsClient) → (receive url id m c).0.counter ≡ c.counter
unfolding receive put_url
receive-counter url id m c = ground arith

pub loop_begin-counter : (url : String) (c : WsClient) → (loop_begin url c).counter ≡ c.counter
unfolding loop_begin put_url
loop_begin-counter url c = ground arith

pub receive-has :
    (url id : String) (m : Message) (c : WsClient)
    → (receive url id m c).1 ≡ true
    → has_message id ((receive url id m c).0.at_url url) ≡ true
unfolding receive put_url has
receive-has url id m c e = elim (Option-cases (c.at_url url).messages) [
  | inl n ↦ absurd (not_notified (rw (n, receive) at e))
  | inr (ms, there) ↦
      rw (there, receive) (rw (eq_refl url) (rw (get-put id id m ms, has) (rw (eq_refl id) refl)))
]
  where
    not_notified : false ≡ true → ⊥
    not_notified x = cc

-- Who is notified of an ID is woken at an answer.
pub notified_support :
    (tasks : Tasks) (j : ℕ) (u id : String) (phase : ℕ → Phase) (lock : Option ℕ) (d : WsClient)
    → has_message id (d.at_url u) ≡ true
    → HasSupport tasks j (phase j) lock d
    → HasSupport tasks j (notify tasks u id phase j) lock d
unfolding notify
notified_support tasks j u id phase lock d m h =
    elim (Bool-cases (is_waiting (phase j) && tasks.url j == u && tasks.msg_id j == id)) [
      | inr f ↦ rw f h
      | inl t ↦
          let p : phase j ≡ waiting = waiting_lem (phase j) (ground (arith, t)) in
          let here : tasks.url j ≡ u = (eq_iff (tasks.url j) u).0 (ground (arith, t)) in
          let mine : tasks.msg_id j ≡ id = (eq_iff (tasks.msg_id j) id).0 (ground (arith, t)) in
          rw t (
            using_support tasks j lock d woken refl (h.reference (ap holds p))
              (h.connection (ap uses p)) (λ x. h.conditions (ap sends p))
              (λ x. rw here (rw mine m)))
    ]
  where
    waiting_lem : (p : Phase) → is_waiting p ≡ true → p ≡ waiting
    waiting_lem p e = ground (arith, e)

pub written_lem :
    (url id : String) (c : WsClient)
    → has_conditions (c.at_url url) ≡ true
    → (d : WsClient) × (send_end url id c ≡ ok d)
unfolding send_end
written_lem url id c h = elim (Option-cases (c.at_url url).conditions) [
  | inl n ↦ absurd (clash (sym (ap is_some n) ∙ h))
  | inr (ids, m) ↦ (
    put_url url (record (c.at_url url) { conditions = some (add_ref id ids) }) c,
    rw (m, send_end) refl,
  )
]
  where
    clash : false ≡ true → ⊥
    clash x = cc

pub answer_lem :
    (url id : String) (c : WsClient)
    → has_message id (c.at_url url) ≡ true
    → (m : Message) × (raise_message url id c ≡ ending_of m)
unfolding raise_message has get
answer_lem url id c h = elim (Option-cases (c.at_url url).messages) [
  | inl n ↦ absurd (clash (rw n at h))
  | inr (ms, there) ↦ elim (Option-cases (get id ms)) [
    | inl n ↦ absurd (clash (rw (n, has) at (rw there at h)))
    | inr (m, g) ↦ (m, rw (there, raise_message) (rw g refl))
  ]
]
  where
    clash : false ≡ true → ⊥
    clash x = cc

pub both_hold :
    (tasks : Tasks) (s : System) (j k : ℕ) (r : Ending)
    → s.phase k ≡ connecting
    → s.phase j ≡ draining r
    → s.holder ≡ some j
    → s.holder ≡ some k
    → ⊥
both_hold tasks s j k r p q hj hk =
    let e : j ≡ k = some-injective (sym hj ∙ hk) in clash (sym p ∙ (ap s.phase (sym e) ∙ q))
  where
    clash : connecting ≡ draining r → ⊥
    clash x = cc
