-- ===== src/Ws/Client/Lost.antt =====
-- wotpy/protocols/ws/client.py: an answer that comes before its condition is made wakes nobody.
use wot_py.Prelude.{
  Result, ok, err, ap, ℕ, String, none, some, Bool, true, false, if◌then◌else◌, ◌≡◌, refl, sym, ◌∙◌,
  eq_refl, arith,
}
use wot_py.Ws.Messages.{Message}
use wot_py.Ws.Client.{
  WsClient, Connection, Loop, scheduled, reading, init_begin, init_end, send_begin, send_end,
  loop_begin, put_url, message_id, receive, new_client,
}
use wot_py.Ws.Client.Stored.{keeps-put}
use wot_py.Ws.Client.Kept.{sent_from, send_begin-on}
use wot_py.Ws.Client.Lasting.{needs_are_met}
use wot_py.Ws.Client.Supported.{HaveOwnRefs}
use wot_py.Ws.Client.Steps.{
  Tasks, Phase, connecting, ready, writing, written, waiting, System, initial, moved, received,
  notify, on_client, connect, connect_ok, loop_starts, send, write_ok, wait, receives, Reach, here,
  next,
}
use wot_py.Ws.Client.Unanswered.{answers, moved-phase, waits_on}

-- A request at its write is not woken.
unnotified :
    (tasks : Tasks) (k : ℕ) (u id : String) (phase : ℕ → Phase)
    → phase k ≡ writing
    → notify tasks u id phase k ≡ writing
unfolding notify
unnotified tasks k u id phase e = rw e refl

abbrev client_or : WsClient → Result WsClient → WsClient
client_or c (ok d) = d
client_or c (err e) = c

-- A request of its own URL whose answer comes between the write of its message and the making of
-- its condition: it can be reached, and then the request waits, although it was answered, until
-- another answer comes.
module _ (tasks : Tasks) (k : ℕ) (own : HaveOwnRefs tasks) (m : Message)
    (answered : message_id m ≡ some (tasks.msg_id k)) where
  abbrev url : String
  url = tasks.url k

  abbrev opened : WsClient
  opened = init_end url (init_begin url (tasks.ref_id k) new_client).0

  abbrev listening : WsClient
  listening = loop_begin url opened

  abbrev system_1 : System
  system_1 = moved k connecting (some k) (init_begin url (tasks.ref_id k) new_client).0 initial

  abbrev system_2 : System
  system_2 = moved k ready none opened system_1

  abbrev system_3 : System
  system_3 = on_client (loop_begin url) system_2

  abbrev system_4 : System
  system_4 = moved k writing none (sent_from url listening) system_3

  abbrev system_5 : System
  system_5 = received tasks url (tasks.msg_id k) m system_4

  opened-on : (opened.at_url url).connected ≡ true
  opened-on = unfold init_end put_url in ground (arith, eq_refl url)

  opened-loop : (opened.at_url url).loop ≡ scheduled
  opened-loop = unfold init_end put_url in ground (arith, eq_refl url)

  listening-on : (listening.at_url url).connected ≡ true
  listening-on = unfold loop_begin put_url in ground (arith, eq_refl url, opened-on)

  listening-loop : (listening.at_url url).loop ≡ reading
  listening-loop = unfold loop_begin put_url in ground (arith, eq_refl url, opened-on)

  reach_1 : Reach tasks initial system_1
  unfolding initial init_begin new_client
  reach_1 = next here (connect k refl refl refl)

  reach_2 : Reach tasks initial system_2
  unfolding moved init_begin
  reach_2 = next reach_1 (
      connect_ok k (
        moved-phase tasks k connecting (some k) (init_begin url (tasks.ref_id k) new_client).0
          initial))

  reach_3 : Reach tasks initial system_3
  unfolding moved
  reach_3 = next reach_2 (loop_starts url opened-loop)

  reach_4 : Reach tasks initial system_4
  unfolding moved
  reach_4 = next reach_3 (
      send k (sent_from url listening) (moved-phase tasks k ready none opened system_1)
        (send_begin-on url listening listening-on))

  loop_of : Connection → Loop
  loop_of x = x.loop

  reach_5 : Reach tasks initial system_5
  unfolding moved loop_of
  reach_5 = next reach_4 (
      receives url (tasks.msg_id k) m
        (keeps-put loop_of url url
            (record (listening.at_url url) {
              conditions = some (wot_py.Ws.Client.or_no_ids (listening.at_url url).conditions);
            })
            listening refl
          ∙ listening-loop)
        answered)

  phase_5 : system_5.phase k ≡ writing
  unfolding received
  phase_5 = unmoved (receive url (tasks.msg_id k) m system_4.client).1
    where
      at_write : system_4.phase k ≡ writing
      at_write = moved-phase tasks k writing none (sent_from url listening) system_3

      unmoved :
          (b : Bool)
          → (if b then notify tasks url (tasks.msg_id k) system_4.phase else system_4.phase) k
            ≡ writing
      unmoved false = at_write
      unmoved true = unnotified tasks k url (tasks.msg_id k) system_4.phase at_write

  abbrev client_6 : WsClient
  client_6 = client_or system_5.client (send_end url (tasks.msg_id k) system_5.client)

  abbrev system_6 : System
  system_6 = moved k written system_5.holder client_6 system_5

  -- The answer was received between the write of the message of `k` and the making of its condition.
  abbrev pub lost : System
  lost = moved k waiting system_6.holder system_6.client system_6

  written_6 : send_end url (tasks.msg_id k) system_5.client ≡ ok client_6
  written_6 =
      let (c, e) = (needs_are_met tasks system_5 k own reach_5).1 phase_5 in
      e ∙ ap (λ r. ok (client_or system_5.client r)) (sym e)

  reach_lost : Reach tasks initial lost
  reach_lost =
      next (next reach_5 (write_ok k client_6 phase_5 written_6))
        (wait k (moved-phase tasks k written system_5.holder client_6 system_5))

  once : answers tasks k lost.history ≡ 1
  once =
      unfold moved received answers initial in
      ground (arith, eq_refl url, eq_refl (tasks.msg_id k), answered)

  -- The answer to a request comes between the write of its message and the making of its condition.
  -- The state after that can be reached, with the answer received once; and in every state that is
  -- reached from it without a second answer, the request, if it has no timeout, still waits.
  pub answer_is_lost :
      tasks.has_timeout k ≡ false
      → (t : System) → Reach tasks lost t
      → answers tasks k t.history ≡ 1
      → Reach tasks initial lost × (answers tasks k lost.history ≡ 1) × (t.phase k ≡ waiting)
  answer_is_lost n t r f = (
    reach_lost,
    once,
    (waits_on tasks k lost t r n
          (moved-phase tasks k waiting system_6.holder system_6.client system_6)).1
        (f ∙ sym once),
  )
