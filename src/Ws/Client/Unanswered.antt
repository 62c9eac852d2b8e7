-- ===== src/Ws/Client/Unanswered.antt =====
-- wotpy/protocols/ws/client.py: a request that is not answered waits.
use wot_py.Prelude.{
  ℕ, ◌+◌, ◌≤◌, String, List, [], ◌∷◌, Option, none, some, Bool, true, false, ◌&&◌, ◌==◌, ◌is◌,
  if◌then◌else◌, ◌≡◌, ◌≢◌, refl, sym, ap, ◌∙◌, subst, inl, inr, eq_iff, arith, Bool-cases, is_iff,
  is_refl,
}
use wot_py.Exposed.{set_at}
use wot_py.Ws.Messages.{Message}
use wot_py.Ws.Client.{
  WsClient, Connection, Loop, scheduled, reading, init_begin, init_end, send_begin, send_end,
  loop_begin, put_url, message_id, receive, new_client,
}
use wot_py.Ws.Client.Steps.{
  Tasks, Phase, starting, connecting, ready, writing, written, waiting, woken, closing, draining,
  System, moved, received, notify, is_waiting, Step, share, connect, connect_ok, connect_fails,
  loop_starts, send, send_nothing, write_ok, write_lost, write_fails, wait, receives, time_runs_out,
  wakes, leave, stop, stop_unconnected, loop_stops, drained, Reach, here, next,
}

abbrev same_id : Option String → String → Bool
same_id none id = false
same_id (some i) id = i == id

-- How many answers to the request `k` were received.
unfoldable pub answers : Tasks → ℕ → List (String × Message) → ℕ
answers tasks k [] = 0
answers tasks k ((u, m) ∷ h) =
    (if u == tasks.url k && same_id (message_id m) (tasks.msg_id k) then 1 else 0)
    + answers tasks k h

module _ (tasks : Tasks) (k : ℕ) where
  moved-other :
      (j : ℕ) (p : Phase) (lock : Option ℕ) (c : WsClient) (s : System)
      → s.phase k ≡ waiting
      → (s.phase j ≢ waiting)
      → (moved j p lock c s).phase k ≡ waiting
  unfolding moved set_at
  moved-other j p lock c s w n = elim (Bool-cases (k is j)) [
    | inl t ↦ absurd (n (subst (λ x. s.phase x ≡ waiting) ((is_iff k j).0 t) w))
    | inr f ↦ rw f w
  ]

  pub moved-phase :
      (p : Phase) (lock : Option ℕ) (c : WsClient) (s : System) → (moved k p lock c s).phase k ≡ p
  unfolding moved set_at
  moved-phase p lock c s = rw (is_refl k) refl

  abbrev Stays : System → System → Type 0
  Stays s t =
      (answers tasks k s.history ≤ answers tasks k t.history)
      × (answers tasks k t.history ≡ answers tasks k s.history → t.phase k ≡ waiting)

  moved-Stays :
      (j : ℕ) (p q : Phase) (lock : Option ℕ) (c : WsClient) (s : System)
      → s.phase k ≡ waiting
      → s.phase j ≡ q
      → is_waiting q ≡ false
      → Stays s (moved j p lock c s)
  moved-Stays j p q lock c s w e n = (
    unfold moved in omega arith,
    λ _. moved-other j p lock c s w (λ x. clash (ap is_waiting (sym x ∙ e) ∙ n)),
  )
    where
      clash : true ≡ false → ⊥
      clash x = cc

  not_notified :
      (u id : String) (m : Message) (phase : ℕ → Phase)
      → message_id m ≡ some id
      → phase k ≡ waiting
      → (u == tasks.url k && same_id (message_id m) (tasks.msg_id k)) ≡ false
      → notify tasks u id phase k ≡ waiting
  unfolding notify
  not_notified u id m phase e w g =
      elim (Bool-cases (is_waiting (phase k) && tasks.url k == u && tasks.msg_id k == id)) [
        | inr f ↦ rw f w
        | inl t ↦
            let h : (u == tasks.url k && id == tasks.msg_id k) ≡ false =
              sym (ap (λ o. u == tasks.url k && same_id o (tasks.msg_id k)) e) ∙ g in
            absurd (
              ground (
                arith,
                t,
                h,
                eq_iff (tasks.url k) u,
                eq_iff u (tasks.url k),
                eq_iff (tasks.msg_id k) id,
                eq_iff id (tasks.msg_id k),
              ))
      ]

  received-Stays :
      (u id : String) (m : Message) (s : System)
      → message_id m ≡ some id
      → s.phase k ≡ waiting
      → Stays s (received tasks u id m s)
  unfolding received answers
  received-Stays u id m s e w = (omega arith, λ h. woken_not (receive u id m s.client).1 (other h))
    where
      guard : Bool
      guard = u == tasks.url k && same_id (message_id m) (tasks.msg_id k)

      zero_one : 1 + answers tasks k s.history ≡ answers tasks k s.history → ⊥
      zero_one h = omega arith

      other :
          (if guard then 1 else 0) + answers tasks k s.history ≡ answers tasks k s.history
          → guard ≡ false
      other h = elim (Bool-cases guard) [ inl t ↦ absurd (zero_one (rw t at h)) | inr f ↦ f ]

      woken_not :
          (b : Bool)
          → guard ≡ false
          → (if b then notify tasks u id s.phase else s.phase) k ≡ waiting
      woken_not false g = w
      woken_not true g = not_notified u id m s.phase e w g

  -- A timeout is another request's.
  moved-timed :
      (j : ℕ)
      → tasks.has_timeout j ≡ true
      → tasks.has_timeout k ≡ false
      → (s : System) → s.phase k ≡ waiting
      → (moved j (closing wot_py.Ws.Client.timed_out) s.holder s.client s).phase k ≡ waiting
  unfolding moved set_at
  moved-timed j t n s w = elim (Bool-cases (k is j)) [
    | inl e ↦ absurd (clash (sym n ∙ (ap tasks.has_timeout ((is_iff k j).0 e) ∙ t)))
    | inr f ↦ rw f w
  ]
    where
      clash : false ≡ true → ⊥
      clash x = cc

  -- A step without an answer to `k` leaves it waiting, if it has no timeout.
  still_waiting :
      (s t : System)
      → Step tasks s t
      → tasks.has_timeout k ≡ false
      → s.phase k ≡ waiting
      → Stays s t
  still_waiting s _ (share j p h b) n w = moved-Stays j _ starting none _ s w p refl
  still_waiting s _ (connect j p h b) n w = moved-Stays j _ starting (some j) _ s w p refl
  still_waiting s _ (connect_ok j p) n w = moved-Stays j _ connecting none _ s w p refl
  still_waiting s _ (connect_fails j e p) n w = moved-Stays j _ connecting none _ s w p refl
  still_waiting s _ (loop_starts u l) n w = (omega arith, λ _. w)
  still_waiting s _ (send j c p e) n w = moved-Stays j _ ready s.holder _ s w p refl
  still_waiting s _ (send_nothing j p e) n w = moved-Stays j _ ready s.holder _ s w p refl
  still_waiting s _ (write_ok j c p e) n w = moved-Stays j _ writing s.holder _ s w p refl
  still_waiting s _ (write_lost j e p f) n w = moved-Stays j _ writing s.holder _ s w p refl
  still_waiting s _ (write_fails j e p) n w = moved-Stays j _ writing s.holder _ s w p refl
  still_waiting s _ (wait j p) n w = moved-Stays j _ written s.holder _ s w p refl
  still_waiting s _ (receives u id m l e) n w = received-Stays u id m s e w
  still_waiting s _ (time_runs_out j p t) n w =
      (unfold moved in omega arith, λ _. moved-timed j t n s w)
  still_waiting s _ (wakes j p) n w = moved-Stays j _ woken s.holder _ s w p refl
  still_waiting s _ (leave j r p h b) n w = moved-Stays j _ (closing r) none _ s w p refl
  still_waiting s _ (stop j r b p h x e) n w = moved-Stays j _ (closing r) (some j) _ s w p refl
  still_waiting s _ (stop_unconnected j r p h x e) n w =
      moved-Stays j _ (closing r) none _ s w p refl
  still_waiting s _ (loop_stops u l e) n w = (omega arith, λ _. w)
  still_waiting s _ (drained j r p e) n w = moved-Stays j _ (draining r) none _ s w p refl

  -- Answers are not forgotten.
  grows : (s t : System) → Step tasks s t → answers tasks k s.history ≤ answers tasks k t.history
  unfolding moved received answers
  grows s _ (share j p h b) = omega arith
  grows s _ (connect j p h b) = omega arith
  grows s _ (connect_ok j p) = omega arith
  grows s _ (connect_fails j e p) = omega arith
  grows s _ (loop_starts u l) = omega arith
  grows s _ (send j c p e) = omega arith
  grows s _ (send_nothing j p e) = omega arith
  grows s _ (write_ok j c p e) = omega arith
  grows s _ (write_lost j e p f) = omega arith
  grows s _ (write_fails j e p) = omega arith
  grows s _ (wait j p) = omega arith
  grows s _ (receives u id m l e) = omega arith
  grows s _ (time_runs_out j p t) = omega arith
  grows s _ (wakes j p) = omega arith
  grows s _ (leave j r p h b) = omega arith
  grows s _ (stop j r b p h x e) = omega arith
  grows s _ (stop_unconnected j r p h x e) = omega arith
  grows s _ (loop_stops u l e) = omega arith
  grows s _ (drained j r p e) = omega arith

  -- Without a timeout, a request that waits waits for ever, if no more answers to it come.
  pub waits_on :
      (s t : System)
      → Reach tasks s t
      → tasks.has_timeout k ≡ false
      → s.phase k ≡ waiting
      → Stays s t
  waits_on s _ here n w = (omega arith, λ _. w)
  waits_on s _ (next {t} {u} r st) n w =
      let (a, f) = waits_on s t r n w in
      let b = grows t u st in
      (
        omega arith,
        λ e.
            let same : answers tasks k t.history ≡ answers tasks k s.history = omega arith in
            (still_waiting t u st n (f same)).1 (e ∙ sym same),
      )
