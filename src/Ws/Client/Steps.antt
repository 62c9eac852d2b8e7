-- ===== src/Ws/Client/Steps.antt =====
-- wotpy/protocols/ws/client.py: requests that run side by side on one client, as a step relation.
-- `tasks` says for each request its URL, its two UUIDs and whether it has a timeout. A step runs one
-- coroutine from one `yield` to the next; the lock is free, or one request holds it.
use wot_py.Prelude.{
  ℕ, String, List, [], ◌∷◌, Option, none, some, Bool, true, false, ◌&&◌, ◌==◌, if◌then◌else◌, ◌≡◌,
  Error, attribute_error, ok, err,
}
use wot_py.Exposed.{set_at}
use wot_py.Ws.Messages.{Message}
use wot_py.Ws.Client.{
  WsClient, new_client, scheduled, reading, Ending, timed_out, raised, init_begin, init_end,
  send_begin, send_end, loop_begin, message_id, receive, loop_end, stop_begin, stop_signal,
  stop_end, raise_message,
}

pub record Tasks : Type 0 where
  pub url : ℕ → String
  pub ref_id : ℕ → String
  pub msg_id : ℕ → String
  pub has_timeout : ℕ → Bool

-- Where a request stands: in front of `_init_conn`, at its connect, behind it, at the write, behind
-- the write, at `condition.wait`, woken from it, in `finally`, at the loop of `_stop_conn`, at the end.
pub data Phase : Type 0 where
  starting connecting ready writing written waiting woken : Phase
  closing draining finished : Ending → Phase

pub record System : Type 0 where
  pub client : WsClient
  pub holder : Option ℕ
  pub phase : ℕ → Phase
  pub history : List (String × Message)

-- All requests start on a new client.
unfoldable pub initial : System
unfolding new_client
initial = record { client = new_client; holder = none; phase = λ _. starting; history = [] }

-- A request goes on to a phase, with the lock and the client as they then are.
unfoldable pub moved : ℕ → Phase → Option ℕ → WsClient → System → System
unfolding set_at
moved k p lock c s = record s { client = c; holder = lock; phase = set_at k p s.phase }

abbrev pub is_waiting : Phase → Bool
is_waiting waiting = true
is_waiting _ = false

-- `notify_all` on the condition of an ID: only who waits at it is woken.
unfoldable pub notify : Tasks → String → String → (ℕ → Phase) → ℕ → Phase
notify tasks url id phase k =
    if is_waiting (phase k) && tasks.url k == url && tasks.msg_id k == id then woken else phase k

-- a round of the receive loop of a URL
unfoldable pub received : Tasks → String → String → Message → System → System
unfolding receive notify
received tasks url id m s =
    let (c, notified) = receive url id m s.client in
    record s {
      client = c;
      phase = if notified then notify tasks url id s.phase else s.phase;
      history = (url, m) ∷ s.history;
    }

abbrev pub on_client : (WsClient → WsClient) → System → System
on_client f s = record s { client = f s.client }

module _ (tasks : Tasks) where
  open tasks use {url, ref_id, msg_id, has_timeout}

  pub data Step (s : System) : System → Type 0 where
    share :
        (k : ℕ)
        → s.phase k ≡ starting
        → s.holder ≡ none
        → (init_begin (url k) (ref_id k) s.client).1 ≡ false
        → Step s (moved k ready none (init_begin (url k) (ref_id k) s.client).0 s)
    connect :
        (k : ℕ)
        → s.phase k ≡ starting
        → s.holder ≡ none
        → (init_begin (url k) (ref_id k) s.client).1 ≡ true
        → Step s (moved k connecting (some k) (init_begin (url k) (ref_id k) s.client).0 s)
    connect_ok :
        (k : ℕ) → s.phase k ≡ connecting → Step s (moved k ready none (init_end (url k) s.client) s)
    connect_fails :
        (k : ℕ) (e : Error)
        → s.phase k ≡ connecting
        → Step s (moved k (closing (raised e)) none s.client s)
    loop_starts :
        (u : String) → (s.client.at_url u).loop ≡ scheduled → Step s (on_client (loop_begin u) s)
    send :
        (k : ℕ) (c : WsClient)
        → s.phase k ≡ ready
        → send_begin (url k) s.client ≡ some c
        → Step s (moved k writing s.holder c s)
    send_nothing :
        (k : ℕ)
        → s.phase k ≡ ready
        → send_begin (url k) s.client ≡ none
        → Step s (moved k (closing (raised attribute_error)) s.holder s.client s)
    write_ok :
        (k : ℕ) (c : WsClient)
        → s.phase k ≡ writing
        → send_end (url k) (msg_id k) s.client ≡ ok c
        → Step s (moved k written s.holder c s)
    write_lost :
        (k : ℕ) (e : Error)
        → s.phase k ≡ writing
        → send_end (url k) (msg_id k) s.client ≡ err e
        → Step s (moved k (closing (raised e)) s.holder s.client s)
    write_fails :
        (k : ℕ) (e : Error)
        → s.phase k ≡ writing
        → Step s (moved k (closing (raised e)) s.holder s.client s)
    wait : (k : ℕ) → s.phase k ≡ written → Step s (moved k waiting s.holder s.client s)
    receives :
        (u id : String) (m : Message)
        → (s.client.at_url u).loop ≡ reading
        → message_id m ≡ some id
        → Step s (received tasks u id m s)
    time_runs_out :
        (k : ℕ)
        → s.phase k ≡ waiting
        → has_timeout k ≡ true
        → Step s (moved k (closing timed_out) s.holder s.client s)
    wakes :
        (k : ℕ)
        → s.phase k ≡ woken
        → Step s (moved k (closing (raise_message (url k) (msg_id k) s.client)) s.holder s.client s)
    leave :
        (k : ℕ) (r : Ending)
        → s.phase k ≡ closing r
        → s.holder ≡ none
        → (stop_begin (url k) (ref_id k) s.client).1 ≡ true
        → Step s (moved k (finished r) none (stop_begin (url k) (ref_id k) s.client).0 s)
    stop :
        (k : ℕ) (r : Ending) (b : Bool)
        → s.phase k ≡ closing r
        → s.holder ≡ none
        → (stop_begin (url k) (ref_id k) s.client).1 ≡ false
        → (s.client.at_url (url k)).stop_event ≡ some b
        → Step s (
            moved k
              (draining r)
              (some k)
              (stop_signal (url k) (stop_begin (url k) (ref_id k) s.client).0)
              s)
    stop_unconnected :
        (k : ℕ) (r : Ending)
        → s.phase k ≡ closing r
        → s.holder ≡ none
        → (stop_begin (url k) (ref_id k) s.client).1 ≡ false
        → (s.client.at_url (url k)).stop_event ≡ none
        → Step s (
            moved k
              (finished r)
              none
              (stop_end (url k) (stop_begin (url k) (ref_id k) s.client).0)
              s)
    loop_stops :
        (u : String)
        → (s.client.at_url u).loop ≡ reading
        → (s.client.at_url u).stop_event ≡ some true
        → Step s (on_client (loop_end u) s)
    drained :
        (k : ℕ) (r : Ending)
        → s.phase k ≡ draining r
        → (s.client.at_url (url k)).stop_event ≡ some false
        → Step s (moved k (finished r) none (stop_end (url k) s.client) s)

  pub data Reach (s : System) : System → Type 0 where
    here : Reach s s
    next : {t u : System} → Reach s t → Step t u → Reach s u
