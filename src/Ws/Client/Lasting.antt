-- ===== src/Ws/Client/Lasting.antt =====
-- wotpy/protocols/ws/client.py: every step keeps what the requests rely on.
use wot_py.Prelude.{
  ℕ, String, some, Bool, true, false, if◌then◌else◌, ◌≡◌, refl, ap, ◌∙◌, ok, attribute_error,
}
use wot_py.Refs.Members.{is_ref}
use wot_py.Ws.Messages.{Message}
use wot_py.Ws.Client.{
  WsClient, Ending, raised, timed_out, put_url, send_begin, send_end, loop_begin, receive, loop_end,
  raise_message, ending_of,
}
use wot_py.Ws.Client.Kept.{
  holds, uses, sends, owns, KeepsUrls, loop_begin-KeepsUrls, loop_end-KeepsUrls, receive-KeepsUrls,
  send_begin-on, sent_from,
}
use wot_py.Ws.Client.Steps.{
  Tasks, starting, connecting, ready, writing, woken, draining, System, initial, received, notify,
  Step, share, connect, connect_ok, connect_fails, loop_starts, send, send_nothing, write_ok,
  write_lost, write_fails, wait, receives, time_runs_out, wakes, leave, stop, stop_unconnected,
  loop_stops, drained, Reach, here, next,
}
use wot_py.Ws.Client.Supported.{HasSupport, IsSupported, keeps_support, HaveOwnRefs}
use wot_py.Ws.Client.Effects.{
  answer_lem, both_hold, loop_begin-counter, notified_support, receive-counter, receive-has,
  written_lem,
}
use wot_py.Ws.Client.Preserved.{
  closes-IsSupported, connect-IsSupported, connect_fails-IsSupported, connect_ok-IsSupported,
  drained-IsSupported, leave-IsSupported, send-IsSupported, share-IsSupported, stop-IsSupported,
  stop_unconnected-IsSupported, wait-IsSupported, write-IsSupported,
}

module _ (tasks : Tasks) (s : System) (i : IsSupported tasks s) where
  -- a step of a receive loop that stores nothing
  loop-IsSupported :
      (d : WsClient)
      → d.counter ≡ s.client.counter
      → KeepsUrls s.client d
      → IsSupported tasks (record s { client = d })
  loop-IsSupported d e urls j =
      keeps_support tasks j (s.phase j) s.holder s.holder s.client d
        (λ x r. ap (is_ref (tasks.url j) (tasks.ref_id j)) e ∙ r) (λ x. urls (tasks.url j))
        (λ x. ((i j).locked x, e)) (i j)

  received-IsSupported : (u id : String) (m : Message) → IsSupported tasks (received tasks u id m s)
  unfolding received
  received-IsSupported u id m j =
      let d = (receive u id m s.client).0 in
      let kept =
        loop-IsSupported d (receive-counter u id m s.client) (receive-KeepsUrls u id m s.client)
          j in
      notified (receive u id m s.client).1 refl kept
    where
      notified :
          (b : Bool)
          → (receive u id m s.client).1 ≡ b
          → HasSupport tasks j (s.phase j) s.holder (receive u id m s.client).0
          → HasSupport tasks j
              ((if b then notify tasks u id s.phase else s.phase) j)
              s.holder
              (receive u id m s.client).0
      notified false e h = h
      notified true e h =
          notified_support tasks j u id s.phase s.holder (receive u id m s.client).0
            (receive-has u id m s.client e) h

Step-IsSupported :
    (tasks : Tasks)
    → HaveOwnRefs tasks
    → (s t : System) → Step tasks s t
    → IsSupported tasks s
    → IsSupported tasks t
Step-IsSupported tasks o s _ (share k p h b) i = share-IsSupported tasks o s i k p h b
Step-IsSupported tasks o s _ (connect k p h b) i = connect-IsSupported tasks o s i k h
Step-IsSupported tasks o s _ (connect_ok k p) i = connect_ok-IsSupported tasks o s i k p
Step-IsSupported tasks o s _ (connect_fails k e p) i =
    connect_fails-IsSupported tasks o s i k (raised e) p
Step-IsSupported tasks o s _ (loop_starts u l) i =
    loop-IsSupported tasks s i (loop_begin u s.client) (loop_begin-counter u s.client)
      (loop_begin-KeepsUrls u s.client)
Step-IsSupported tasks o s _ (send k c p e) i = send-IsSupported tasks o s i k c p e
Step-IsSupported tasks o s _ (send_nothing k p e) i =
    closes-IsSupported tasks o s i k (raised attribute_error) (ap holds p)
Step-IsSupported tasks o s _ (write_ok k c p e) i = write-IsSupported tasks o s i k c p e
Step-IsSupported tasks o s _ (write_lost k e p f) i =
    closes-IsSupported tasks o s i k (raised e) (ap holds p)
Step-IsSupported tasks o s _ (write_fails k e p) i =
    closes-IsSupported tasks o s i k (raised e) (ap holds p)
Step-IsSupported tasks o s _ (wait k p) i = wait-IsSupported tasks o s i k p
Step-IsSupported tasks o s _ (receives u id m l e) i = received-IsSupported tasks s i u id m
Step-IsSupported tasks o s _ (time_runs_out k p t) i =
    closes-IsSupported tasks o s i k timed_out (ap holds p)
Step-IsSupported tasks o s _ (wakes k p) i =
    closes-IsSupported tasks o s i k (raise_message (tasks.url k) (tasks.msg_id k) s.client)
      (ap holds p)
Step-IsSupported tasks o s _ (leave k r p h b) i = leave-IsSupported tasks o s i k r h
Step-IsSupported tasks o s _ (stop k r b p h n e) i = stop-IsSupported tasks o s i k r h n
Step-IsSupported tasks o s _ (stop_unconnected k r p h n e) i =
    stop_unconnected-IsSupported tasks o s i k r h n
Step-IsSupported tasks o s _ (loop_stops u l e) i =
    loop-IsSupported tasks s i (loop_end u s.client) (unfold loop_end put_url in refl)
      (loop_end-KeepsUrls u s.client)
Step-IsSupported tasks o s _ (drained k r p e) i = drained-IsSupported tasks o s i k r p

Reach-IsSupported :
    (tasks : Tasks)
    → HaveOwnRefs tasks
    → (s t : System) → Reach tasks s t
    → IsSupported tasks s
    → IsSupported tasks t
Reach-IsSupported tasks o s _ here i = i
Reach-IsSupported tasks o s _ (next {t} {u} r st) i =
    Step-IsSupported tasks o t u st (Reach-IsSupported tasks o s t r i)

initial-IsSupported : (tasks : Tasks) → IsSupported tasks initial
unfolding initial
initial-IsSupported tasks k = record {
  reference = λ e. cc;
  connection = λ e. cc;
  conditions = λ e. cc;
  answer = λ e. absurd (not_woken e);
  locked = λ e. cc;
  alone = λ r e. absurd (not_draining r e);
}
  where
    not_woken : starting ≡ woken → ⊥
    not_woken e = cc

    not_draining : (r : Ending) → starting ≡ draining r → ⊥
    not_draining r e = cc

pub needs_are_met :
    (tasks : Tasks) (s : System) (k : ℕ)
    → HaveOwnRefs tasks
    → Reach tasks initial s
    → (s.phase k ≡ ready → (c : WsClient) × (send_begin (tasks.url k) s.client ≡ some c))
      × (s.phase k ≡ writing
          → (c : WsClient) × (send_end (tasks.url k) (tasks.msg_id k) s.client ≡ ok c))
      × (s.phase k ≡ woken
          → (m : Message) × (raise_message (tasks.url k) (tasks.msg_id k) s.client ≡ ending_of m))
      × ((j : ℕ) (r : Ending) → s.phase k ≡ connecting → s.phase j ≡ draining r → ⊥)
needs_are_met tasks s k o r =
    let i = Reach-IsSupported tasks o initial s r (initial-IsSupported tasks) in
    (
      λ p. (
        sent_from (tasks.url k) s.client,
        send_begin-on (tasks.url k) s.client ((i k).connection (ap uses p)),
      ),
      λ p. written_lem (tasks.url k) (tasks.msg_id k) s.client ((i k).conditions (ap sends p)),
      λ p. answer_lem (tasks.url k) (tasks.msg_id k) s.client ((i k).answer p),
      λ j q p x. both_hold tasks s j k q p x ((i j).locked (ap owns x)) ((i k).locked (ap owns p)),
    )
