-- ===== src/Tests/Clients.antt =====
-- The theorems on the WebSockets client at concrete inputs.
use Prim.Native.Char.{Char}
use wot_py.Prelude.{
  ℕ, zero, suc, String, List, [], ◌∷◌, Option, none, some, Bool, true, false, ◌==◌, ◌is◌,
  if◌then◌else◌, ◌≡◌, ◌≢◌, refl, sym, ap, ◌∙◌, In, inl,
}
use wot_py.Json.{integer, text}
use wot_py.Ws.Messages.{Message, response}
use wot_py.Ws.Client.{Connection, gave, send_begin, send_end, raise_message, message_id, ending_of}
use wot_py.Ws.Client.Steps.{
  Tasks, Phase, waiting, woken, finished, System, initial, Reach, here, next, connect, connect_ok,
  loop_starts, send, write_ok, wait, receives, wakes, stop, loop_stops, drained,
}
use wot_py.Ws.Client.Supported.{HaveOwnRefs}
use wot_py.Ws.Client.Answered.{value_was_received}
use wot_py.Ws.Client.Unanswered.{answers}
use wot_py.Ws.Client.Lost.{lost, answer_is_lost}

abbrev stroke : Char
stroke = "1"

-- UUIDs for any number of requests.
unfoldable strokes : ℕ → String
strokes zero = ""
strokes (suc n) = String.◌∷◌ stroke (strokes n)

unfoldable size : String → ℕ
size String.[] = 0
size (String.◌∷◌ c s) = suc (size s)

size-strokes : (n : ℕ) → size (strokes n) ≡ n
unfolding size strokes
size-strokes zero = refl
size-strokes (suc n) = ap suc (size-strokes n)

abbrev tasks : Tasks
tasks = record {
  url = λ k. "ws://a";
  ref_id = strokes;
  msg_id = λ k. "m";
  has_timeout = λ k. false;
}

tasks-HaveOwnRefs : HaveOwnRefs tasks
tasks-HaveOwnRefs j k n e = n (sym (size-strokes j) ∙ (ap size e ∙ size-strokes k))

abbrev answer : Message
answer = response (record { result = integer 7; msg_id = text "m" })

abbrev Goes : System → Type 0
Goes s = Reach tasks initial s

-- One request, from its start until its answer wakes it, and from there to the end.
run :
    (s : System) × Goes s
    × (s.phase 0 ≡ woken)
    × (t : System) × Goes t
    × (t.phase 0 ≡ finished (gave (integer 7)))
unfolding initial wot_py.Ws.Client.new_client wot_py.Ws.Client.put_url wot_py.Ws.Client.init_begin
    wot_py.Ws.Client.init_end wot_py.Ws.Client.send_begin wot_py.Ws.Client.send_end
    wot_py.Ws.Client.loop_begin wot_py.Ws.Client.receive wot_py.Ws.Client.loop_end
    wot_py.Ws.Client.stop_begin wot_py.Ws.Client.stop_signal wot_py.Ws.Client.stop_end
    wot_py.Ws.Client.raise_message wot_py.Ws.Client.text_id wot_py.Ws.Client.Steps.moved
    wot_py.Ws.Client.Steps.notify wot_py.Ws.Client.Steps.received wot_py.Exposed.set_at
    wot_py.Refs.increase wot_py.Refs.decrease wot_py.Refs.has_any wot_py.Refs.add_ref
    wot_py.Prelude.get wot_py.Prelude.put wot_py.Prelude.pop wot_py.Prelude.has
    wot_py.Prelude.contains wot_py.Prelude.filter strokes
run =
    let r1 = next here (connect 0 refl refl refl) in
    let r2 = next r1 (connect_ok 0 refl) in
    let r3 = next r2 (loop_starts "ws://a" refl) in
    let r4 = next r3 (send 0 _ refl refl) in
    let r5 = next r4 (write_ok 0 _ refl refl) in
    let r6 = next r5 (wait 0 refl) in
    let r7 = next r6 (receives "ws://a" "m" answer refl refl) in
    let r8 = next r7 (wakes 0 refl) in
    let r9 = next r8 (stop 0 _ false refl refl refl refl) in
    let r10 = next r9 (loop_stops "ws://a" refl refl) in
    (_, r7, refl, _, next r10 (drained 0 _ refl refl), refl)

value_was_received_example :
    (m : Message) × In ("ws://a", m) run.3.history
    × (message_id m ≡ some "m")
    × (ending_of m ≡ gave (integer 7))
value_was_received_example = value_was_received tasks run.3 0 (integer 7) run.4 run.5

answer-message_id : message_id answer ≡ some "m"
unfolding wot_py.Ws.Client.text_id
answer-message_id = refl

abbrev lost_answer : System
lost_answer = lost tasks 0 tasks-HaveOwnRefs answer answer-message_id

lost_answer-answers : answers tasks 0 lost_answer.history ≡ 1
unfolding answers wot_py.Ws.Client.Steps.moved wot_py.Ws.Client.Steps.received
    wot_py.Ws.Client.text_id initial
lost_answer-answers = refl

answer_is_lost_example :
    Reach tasks initial lost_answer
    × (answers tasks 0 lost_answer.history ≡ 1)
    × (lost_answer.phase 0 ≡ waiting)
answer_is_lost_example =
    answer_is_lost tasks 0 tasks-HaveOwnRefs answer answer-message_id refl lost_answer here
      lost_answer-answers
