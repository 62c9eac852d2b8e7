-- ===== src/Mqtt/Requests/Waiting.antt =====
-- wotpy/protocols/mqtt/client.py: how the loop in which a request awaits its answer ends.
use wot_py.Prelude.{
  ℕ, String, List, [], ◌∷◌, ◌++◌, Option, none, some, Bool, true, false, ◌≡◌, ◌≢◌, ◌⊎◌, refl, sym,
  ap, ◌∙◌, subst, inl, inr, In, Bool-cases, contains_text, Error, assertion_error, Result, ok, err,
  client_request_timeout,
}
use wot_py.Mqtt.Client.{Stored, MqttClient, next_match, first_match, known_topics}
use wot_py.Mqtt.Awaiting.{
  Wake, Awaited, pending, failed, returned, is_late, await_turn, await_match, deliver,
}
use wot_py.Mqtt.Client.Queues.{queue}

-- `m` is the first item that `func` accepts.
abbrev pub IsFirst : (Stored → Result Bool) → List Stored → Stored → Type 0
IsFirst func q m =
    (before after : List Stored) × (q ≡ before ++ m ∷ after)
    × (func m ≡ ok true)
    × ((x : Stored) → In x before → func x ≡ ok false)

Result-cases : {A : Type 0} (r : Result A) → ((e : Error) × (r ≡ err e)) ⊎ ((a : A) × (r ≡ ok a))
Result-cases (err e) = inl (e, refl)
Result-cases (ok a) = inr (a, refl)

first_match-IsFirst :
    (func : Stored → Result Bool) (q : List Stored) (m : Stored)
    → first_match func q ≡ ok (some m)
    → IsFirst func q m
unfolding first_match
first_match-IsFirst func [] m h = absurd (clash h)
  where
    clash : ok none ≡ ok (some m) → ⊥
    clash h = cc
first_match-IsFirst func (x ∷ q) m h = elim (Result-cases (func x)) [
  | inl (e, p) ↦ absurd (clash (rw (p, first_match) at h))
  | inr (true, p) ↦
      let same : x ≡ m = cc in
      ([], q, ap (λ y. y ∷ q) same, subst (λ y. func y ≡ ok true) same p, λ y k. absurd k)
  | inr (false, p) ↦
      let (before, after, e, y, n) = first_match-IsFirst func q m (rw (p, first_match) at h) in
      (
        x ∷ before,
        after,
        ap (λ l. x ∷ l) e,
        y,
        λ z k. elim k [ inl s ↦ subst (λ w. func w ≡ ok false) (sym s) p | inr s ↦ n z s ],
      )
]
  where
    clash : {e : Error} → err e ≡ ok (some m) → ⊥
    clash h = cc

module _ (timeout : Option ℕ) (ini : ℕ) (broker topic : String) (func : Stored → Result Bool) where
  turn-late :
      (now : ℕ) (c : MqttClient) (rest : MqttClient × Awaited Stored)
      → is_late timeout ini now ≡ true
      → await_turn timeout ini broker topic func now c rest ≡ (c, failed client_request_timeout)
  unfolding await_turn
  turn-late now c rest h = rw (h, await_turn) refl

  -- A turn fails, returns the match, or goes on to the rest.
  turn-cases :
      (now : ℕ) (c : MqttClient) (rest : MqttClient × Awaited Stored)
      → ((e : Error) × (await_turn timeout ini broker topic func now c rest ≡ (c, failed e)))
        ⊎ ((m : Stored) × (next_match broker topic func c ≡ ok (some m))
            × (await_turn timeout ini broker topic func now c rest ≡ (c, returned m)))
        ⊎ (await_turn timeout ini broker topic func now c rest ≡ rest)
  unfolding await_turn
  turn-cases now c rest = elim (Bool-cases (is_late timeout ini now)) [
    | inl l ↦ inl (client_request_timeout, rw (l, await_turn) refl)
    | inr l ↦ elim (Result-cases (next_match broker topic func c)) [
      | inl (e, p) ↦ inl (e, rw (l, await_turn, p) refl)
      | inr (some m, p) ↦ inr (inl (m, p, rw (l, await_turn, p) refl))
      | inr (none, p) ↦ elim (Bool-cases (contains_text topic (known_topics broker c))) [
        | inl k ↦ inr (inr (rw (l, await_turn, p, k) refl))
        | inr k ↦ inl (assertion_error, rw (l, await_turn, p, k) refl)
      ]
    ]
  ]

  not_pending-failed :
      {c : MqttClient} {e : Error} (r : MqttClient × Awaited Stored)
      → r ≡ (c, failed e)
      → r.1 ≢ pending
  not_pending-failed r h p = cc

  not_pending-returned :
      {c : MqttClient} {m : Stored} (r : MqttClient × Awaited Stored)
      → r ≡ (c, returned m)
      → r.1 ≢ pending
  not_pending-returned r h p = cc

  turn-ends :
      (now : ℕ) (c : MqttClient) (rest : MqttClient × Awaited Stored)
      → rest.1 ≢ pending
      → (await_turn timeout ini broker topic func now c rest).1 ≢ pending
  turn-ends now c rest n = elim (turn-cases now c rest) [
    | inl (e, h) ↦ not_pending-failed (await_turn timeout ini broker topic func now c rest) h
    | inr (inl (m, p, h)) ↦
        not_pending-returned (await_turn timeout ini broker topic func now c rest) h
    | inr (inr h) ↦ λ p. n (ap (λ r. r.1) (sym h) ∙ p)
  ]

  late-ends :
      (wakes : List Wake) (now : ℕ) (c : MqttClient)
      → is_late timeout ini now ≡ true
      → (await_match timeout ini broker topic func now wakes c).1 ≢ pending
  unfolding await_match
  late-ends [] now c l =
      not_pending-failed (await_turn timeout ini broker topic func now c (c, pending))
        (turn-late now c (c, pending) l)
  late-ends (w ∷ wakes) now c l =
      let rest = await_match timeout ini broker topic func w.now wakes (deliver w.arrivals c) in
      not_pending-failed (await_turn timeout ini broker topic func now c rest)
        (turn-late now c rest l)

  -- A wake after the timeout ends the wait.
  pub await_match-ends :
      (wakes : List Wake) (now : ℕ) (c : MqttClient) (w : Wake)
      → In w wakes
      → is_late timeout ini w.now ≡ true
      → (await_match timeout ini broker topic func now wakes c).1 ≢ pending
  unfolding await_match
  await_match-ends [] now c w k l = absurd k
  await_match-ends (v ∷ wakes) now c w (inl e) l =
      turn-ends now c (await_match timeout ini broker topic func v.now wakes (deliver v.arrivals c))
        (late-ends wakes v.now (deliver v.arrivals c)
          (ap (λ x. is_late timeout ini x.now) (sym e) ∙ l))
  await_match-ends (v ∷ wakes) now c w (inr k) l =
      turn-ends now c (await_match timeout ini broker topic func v.now wakes (deliver v.arrivals c))
        (await_match-ends wakes v.now (deliver v.arrivals c) w k l)

  turn-returned :
      (now : ℕ) (c d : MqttClient) (m : Stored) (rest : MqttClient × Awaited Stored)
      → await_turn timeout ini broker topic func now c rest ≡ (d, returned m)
      → IsFirst func (queue broker topic d) m ⊎ (rest ≡ (d, returned m))
  unfolding next_match
  turn-returned now c d m rest h = elim (turn-cases now c rest) [
    | inl (e, p) ↦ absurd (not_failed (sym p ∙ h))
    | inr (inl (x, q, p)) ↦
        let same_item : x ≡ m = cc in
        let same_state : c ≡ d = cc in
        inl (
          subst (λ u. IsFirst func (queue broker topic u) m) same_state
            (first_match-IsFirst func (queue broker topic c) m
              (q ∙ ap (λ y. ok (some y)) same_item)))
    | inr (inr p) ↦ inr (sym p ∙ h)
  ]
    where
      not_failed :
          {e : Error} → ◌≡◌ {A = MqttClient × Awaited Stored} (c, failed e) (d, returned m) → ⊥
      not_failed x = cc

  -- What a wait returns is the first match in the queue.
  pub await_match-IsFirst :
      (wakes : List Wake) (now : ℕ) (c d : MqttClient) (m : Stored)
      → await_match timeout ini broker topic func now wakes c ≡ (d, returned m)
      → IsFirst func (queue broker topic d) m
  unfolding await_match next_match
  await_match-IsFirst [] now c d m h = elim (turn-returned now c d m (c, pending) h) [
    | inl first ↦ first
    | inr p ↦ absurd (not_waiting p)
  ]
    where
      not_waiting : ◌≡◌ {A = MqttClient × Awaited Stored} (c, pending) (d, returned m) → ⊥
      not_waiting x = cc
  await_match-IsFirst (w ∷ wakes) now c d m h =
      let rest = await_match timeout ini broker topic func w.now wakes (deliver w.arrivals c) in
      elim (turn-returned now c d m rest h) [
        | inl first ↦ first
        | inr p ↦ await_match-IsFirst wakes w.now (deliver w.arrivals c) d m p
      ]
