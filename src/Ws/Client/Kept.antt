-- ===== src/Ws/Client/Kept.antt =====
-- wotpy/protocols/ws/client.py: a request has its connection, its condition and its answer for as
-- long as it needs them, whatever the other requests do.
use wot_py.Prelude.{
  some-injective, String, Option, none, some, Bool, true, false, ◌==◌, if◌then◌else◌, ◌≡◌, ◌≢◌,
  refl, sym, ap, ◌∙◌, subst, inl, inr, Dict, put, has, get-put, eq_iff, arith, Bool-cases,
  Option-cases, ok, ok-injective, ==-of-ne,
}
use wot_py.Ws.Messages.{Message}
use wot_py.Ws.Client.{
  WsClient, Connection, Ending, gave, raised, timed_out, put_url, or_no_messages, init_begin,
  init_end, send_begin, send_end, loop_begin, receive, loop_end, stop_begin, stop_signal, stop_end,
  raise_message, message_id, ending_of, ending_at, new_client,
}
use wot_py.Ws.Client.Steps.{
  Phase, starting, connecting, ready, writing, written, waiting, woken, draining, finished,
}

-- The request has a reference to the connection.
abbrev pub holds : Phase → Bool
holds starting = false
holds (draining _) = false
holds (finished _) = false
holds _ = true

-- It is between `_init_conn` and `finally`.
abbrev pub uses : Phase → Bool
uses ready = true
uses writing = true
uses written = true
uses waiting = true
uses woken = true
uses _ = false

-- It is behind the first half of `_send_message`.
abbrev pub sends : Phase → Bool
sends writing = true
sends written = true
sends waiting = true
sends woken = true
sends _ = false

-- It has the lock.
abbrev pub owns : Phase → Bool
owns connecting = true
owns (draining _) = true
owns _ = false

abbrev pub is_some {ℓ} : {A : Type ℓ} → Option A → Bool
is_some none = false
is_some (some _) = true

abbrev pub is_on : Connection → Bool
is_on x = x.connected

abbrev pub has_conditions : Connection → Bool
has_conditions x = is_some x.conditions

abbrev pub has_message : String → Connection → Bool
has_message id x = has id (or_no_messages x.messages)

-- What the requests on a URL rely on is not lost between two connections.
pub record Preserves (x y : Connection) : Type 0 where
  pub on : is_on x ≡ true → is_on y ≡ true
  pub conditioned : has_conditions x ≡ true → has_conditions y ≡ true
  pub stored : (id : String) → has_message id x ≡ true → has_message id y ≡ true

pub Preserves-refl : (x : Connection) → Preserves x x
Preserves-refl x = record { on = λ h. h; conditioned = λ h. h; stored = λ id h. h }

put-Preserves :
    (url : String) (x : Connection) (c : WsClient)
    → Preserves (c.at_url url) x
    → (u : String) → Preserves (c.at_url u) ((put_url url x c).at_url u)
unfolding put_url
put-Preserves url x c p u = elim (Bool-cases (u == url)) [
  | inl t ↦ rw t (subst (λ w. Preserves (c.at_url w) x) (sym ((eq_iff u url).0 t)) p)
  | inr f ↦ rw f (Preserves-refl (c.at_url u))
]

abbrev pub KeepsUrls : WsClient → WsClient → Type 0
KeepsUrls c d = (u : String) → Preserves (c.at_url u) (d.at_url u)

pub init_end-KeepsUrls : (url : String) (c : WsClient) → KeepsUrls c (init_end url c)
unfolding init_end
init_end-KeepsUrls url c u =
    put-Preserves url _ c (record { on = λ h. refl; conditioned = λ h. h; stored = λ id h. h }) u

-- The client behind the first half of `_send_message`.
abbrev pub sent_from : String → WsClient → WsClient
sent_from url c =
    put_url url
      (record (c.at_url url) {
        conditions = some (wot_py.Ws.Client.or_no_ids (c.at_url url).conditions);
      })
      c

pub send_begin-on :
    (url : String) (c : WsClient)
    → is_on (c.at_url url) ≡ true
    → send_begin url c ≡ some (sent_from url c)
unfolding send_begin
send_begin-on url c t = ap (λ b. if b then some (sent_from url c) else none) t

pub send_begin-off :
    (url : String) (c : WsClient) → is_on (c.at_url url) ≡ false → send_begin url c ≡ none
unfolding send_begin
send_begin-off url c t = ap (λ b. if b then some (sent_from url c) else none) t

pub send_begin-KeepsUrls :
    (url : String) (c d : WsClient) → send_begin url c ≡ some d → KeepsUrls c d
send_begin-KeepsUrls url c d e u = elim (Bool-cases (is_on (c.at_url url))) [
  | inl t ↦
      subst (λ w. Preserves (c.at_url u) (w.at_url u))
        (some-injective (sym (send_begin-on url c t) ∙ e))
        (put-Preserves url
          (record (c.at_url url) {
            conditions = some (wot_py.Ws.Client.or_no_ids (c.at_url url).conditions);
          })
          c (record { on = λ h. h; conditioned = λ h. refl; stored = λ id h. h }) u)
  | inr f ↦ let x : none ≡ some d = sym (send_begin-off url c f) ∙ e in absurd (cc x)
]

pub send_end-KeepsUrls :
    (url id : String) (c d : WsClient) → send_end url id c ≡ ok d → KeepsUrls c d
unfolding send_end
send_end-KeepsUrls url id c d e u = elim (Option-cases (c.at_url url).conditions) [
  | inl n ↦ absurd (ground (arith, n, e))
  | inr (ids, m) ↦
      subst (λ w. Preserves (c.at_url u) (w.at_url u)) (ok-injective (rw (m, send_end) at e))
        (put-Preserves url _ c (record { on = λ h. h; conditioned = λ h. refl; stored = λ id h. h })
          u)
]

pub loop_begin-KeepsUrls : (url : String) (c : WsClient) → KeepsUrls c (loop_begin url c)
unfolding loop_begin
loop_begin-KeepsUrls url c u = by_case (is_on (c.at_url url))
  where
    by_case :
        (b : Bool)
        → Preserves (c.at_url u) (
            (if b
                then put_url url
                    (record (c.at_url url) {
                      messages = some (or_no_messages (c.at_url url).messages);
                      loop = wot_py.Ws.Client.reading;
                    })
                    c
                else put_url url
                    (record (c.at_url url) { loop = wot_py.Ws.Client.absent })
                    c).at_url
              u)
    by_case true =
        put-Preserves url _ c (record { on = λ h. h; conditioned = λ h. h; stored = λ id h. h }) u
    by_case false =
        put-Preserves url _ c (record { on = λ h. h; conditioned = λ h. h; stored = λ id h. h }) u

pub loop_end-KeepsUrls : (url : String) (c : WsClient) → KeepsUrls c (loop_end url c)
unfolding loop_end
loop_end-KeepsUrls url c u =
    put-Preserves url _ c (record { on = λ h. h; conditioned = λ h. h; stored = λ id h. h }) u

pub stop_signal-KeepsUrls : (url : String) (c : WsClient) → KeepsUrls c (stop_signal url c)
unfolding stop_signal
stop_signal-KeepsUrls url c u =
    put-Preserves url _ c (record { on = λ h. h; conditioned = λ h. h; stored = λ id h. h }) u

-- The pops of a URL leave the other URLs alone.
pub stop_end-others :
    (url u : String) (c : WsClient) → u ≢ url → Preserves (c.at_url u) ((stop_end url c).at_url u)
unfolding stop_end put_url
stop_end-others url u c n = rw (==-of-ne u url n) (Preserves-refl (c.at_url u))

has-put :
    (k j : String) (m : Message) (ms : Dict Message) → has j ms ≡ true → has j (put k m ms) ≡ true
unfolding has
has-put k j m ms h =
    rw (get-put k j m ms, has) (elim (Bool-cases (k == j)) [ inl t ↦ rw t refl | inr f ↦ rw f h ])

pub receive-KeepsUrls :
    (url id : String) (m : Message) (c : WsClient) → KeepsUrls c (receive url id m c).0
unfolding receive
receive-KeepsUrls url id m c u = elim (Option-cases (c.at_url url).messages) [
  | inl n ↦ rw (n, receive) (Preserves-refl (c.at_url u))
  | inr (ms, there) ↦
      rw (there, receive)
        (put-Preserves url _ c
          (record {
            on = λ h. h;
            conditioned = λ h. h;
            stored = λ j h. has-put id j m ms (rw there at h);
          })
          u)
]
