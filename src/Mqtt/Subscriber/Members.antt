-- ===== src/Mqtt/Subscriber/Members.antt =====
-- wotpy/protocols/mqtt/handlers/subs.py: what is subscribed to after each step, and how often.
use wot_py.Prelude.{
  ℕ, ◌+◌, ◌≤◌, List, [], ◌∷◌, none, some, Bool, true, false, not, ◌&&◌, ◌is◌, if◌then◌else◌, ◌≡◌,
  refl, ◌∙◌, subst, inl, inr, arith, filter, get_at, put_at, has_ident, get_at-put_at,
  get_at-pop_at, has_ident-filter, is_iff, Bool-cases, Option-cases,
}
use wot_py.Mqtt.Subscriber.{
  Subscriber, thing_subs, dispose_live, dispose_each, unsubscribe, subscribe, dispose_thing,
  dispose_things, unsubscribe_each, with_thing,
}

-- There is an entry for the interaction `j` of the ExposedThing `q`.
unfoldable pub is_subscribed : ℕ → ℕ → Subscriber → Bool
is_subscribed q j s = has_ident j (thing_subs q s)

-- How many subscriptions to it are live.
unfoldable pub live_count : ℕ → ℕ → List (ℕ × ℕ) → ℕ
live_count q j [] = 0
live_count q j ((r, i) ∷ live) = (if r is q && i is j then 1 else 0) + live_count q j live

-- The live subscriptions are those in the table, each one live once.
abbrev pub IsCoherent : Subscriber → Type 0
IsCoherent s = (q j : ℕ) → live_count q j s.live ≡ (if is_subscribed q j s then 1 else 0)

module _ (r q : ℕ) (s t : Subscriber) (keys : List ℕ) (e : t.subs ≡ put_at r keys s.subs) where
  thing_subs-put : thing_subs q t ≡ (if r is q then keys else thing_subs q s)
  unfolding thing_subs
  thing_subs-put = rw e (
      rw (get_at-put_at r q keys s.subs)
        (elim (Bool-cases (r is q)) [ inl h ↦ rw h refl | inr h ↦ rw h refl ]))

pub is_subscribed-unsubscribe :
    (r i q j : ℕ) (s : Subscriber)
    → is_subscribed q j (unsubscribe r i s)
      ≡ (if r is q && i is j then false else is_subscribed q j s)
unfolding is_subscribed unsubscribe
is_subscribed-unsubscribe r i q j s =
    rw (thing_subs-put r q s (unsubscribe r i s) (filter (λ k. not (k is i)) (thing_subs r s)) refl)
      (elim (Bool-cases (r is q)) [
        | inl h ↦
            let e : r ≡ q = (is_iff r q).0 h in
            rw h
              (rw e (rw (has_ident-filter (λ k. not (k is i)) j (thing_subs q s)) (ground arith)))
        | inr h ↦ rw h refl
      ])

pub is_subscribed-subscribe :
    (r i q j : ℕ) (s : Subscriber)
    → is_subscribed q j (subscribe r i s) ≡ (if r is q && i is j then true else is_subscribed q j s)
unfolding is_subscribed subscribe has_ident
is_subscribed-subscribe r i q j s =
    rw
      (thing_subs-put r q s (subscribe r i s) (i ∷ filter (λ k. not (k is i)) (thing_subs r s))
        refl)
      (elim (Bool-cases (r is q)) [
        | inl h ↦
            let e : r ≡ q = (is_iff r q).0 h in
            rw h
              (rw e (rw (has_ident-filter (λ k. not (k is i)) j (thing_subs q s)) (ground arith)))
        | inr h ↦ rw h refl
      ])

pub is_subscribed-with_thing :
    (r q j : ℕ) (s : Subscriber) → is_subscribed q j (with_thing r s) ≡ is_subscribed q j s
unfolding is_subscribed with_thing
is_subscribed-with_thing r q j s =
    rw (thing_subs-put r q s (with_thing r s) (thing_subs r s) refl) (elim (Bool-cases (r is q)) [
      | inl h ↦ let e : r ≡ q = (is_iff r q).0 h in rw h (rw e refl)
      | inr h ↦ rw h refl
    ])

-- Of live subscriptions that are live at most once, a disposal leaves none.
live_count-dispose_live :
    (r i q j : ℕ) (live : List (ℕ × ℕ))
    → live_count q j live ≤ 1
    → live_count q j (dispose_live r i live) ≡ (if r is q && i is j then 0 else live_count q j live)
unfolding live_count dispose_live
live_count-dispose_live r i q j [] h = ground arith
live_count-dispose_live r i q j ((p, k) ∷ live) h =
    ground (arith, live_count-dispose_live r i q j live)

live_count-dispose_each :
    (r q j : ℕ) (keys : List ℕ) (live : List (ℕ × ℕ))
    → live_count q j live ≤ 1
    → live_count q j (dispose_each r keys live)
      ≡ (if r is q && has_ident j keys then 0 else live_count q j live)
unfolding dispose_each has_ident
live_count-dispose_each r q j [] live h = ground arith
live_count-dispose_each r q j (i ∷ keys) live h = ground (
  arith,
  live_count-dispose_live r i q j live h,
  live_count-dispose_each r q j keys (dispose_live r i live),
)

coherent_le : (s : Subscriber) → IsCoherent s → (q j : ℕ) → live_count q j s.live ≤ 1
coherent_le s c q j = ground (arith, c q j)

pub unsubscribe-IsCoherent :
    (r i : ℕ) (s : Subscriber) → IsCoherent s → IsCoherent (unsubscribe r i s)
unsubscribe-IsCoherent r i s c q j =
    live ∙ ground (arith, is_subscribed-unsubscribe r i q j s, c q j)
  where
    live :
        live_count q j (unsubscribe r i s).live
        ≡ (if r is q && i is j then 0 else live_count q j s.live)
    live = unfold unsubscribe in live_count-dispose_live r i q j s.live (coherent_le s c q j)

pub subscribe-IsCoherent :
    (r i : ℕ) (s : Subscriber)
    → is_subscribed r i s ≡ false
    → IsCoherent s
    → IsCoherent (subscribe r i s)
subscribe-IsCoherent r i s n c q j = live ∙ elim (Bool-cases (r is q && i is j)) [
  | inl h ↦
      let e : r ≡ q = (is_iff r q).0 (ground arith) in
      let f : i ≡ j = (is_iff i j).0 (ground arith) in
      let m : is_subscribed q j s ≡ false = rw (← e) (rw (← f) n) in
      ground (arith, is_subscribed-subscribe r i q j s, c q j)
  | inr h ↦ ground (arith, is_subscribed-subscribe r i q j s, c q j)
]
  where
    live :
        live_count q j (subscribe r i s).live
        ≡ (if r is q && i is j then 1 else 0) + live_count q j s.live
    live = unfold subscribe live_count in refl

pub with_thing-IsCoherent : (r : ℕ) (s : Subscriber) → IsCoherent s → IsCoherent (with_thing r s)
with_thing-IsCoherent r s c q j = rw (is_subscribed-with_thing r q j s) (unfold with_thing in c q j)

absent : (r j : ℕ) (s : Subscriber) → get_at r s.subs ≡ none → is_subscribed r j s ≡ false
unfolding is_subscribed thing_subs has_ident
absent r j s n = rw n refl

present :
    (r j : ℕ) (s : Subscriber) (keys : List ℕ)
    → get_at r s.subs ≡ some keys
    → is_subscribed r j s ≡ has_ident j keys
unfolding is_subscribed thing_subs
present r j s keys m = rw m refl

pub is_subscribed-dispose_thing :
    (r q j : ℕ) (s : Subscriber)
    → is_subscribed q j (dispose_thing r s) ≡ (if r is q then false else is_subscribed q j s)
unfolding is_subscribed dispose_thing thing_subs has_ident
is_subscribed-dispose_thing r q j s = elim (Option-cases (get_at r s.subs)) [
  | inl n ↦
      rw (n, dispose_thing)
        (elim (Bool-cases (r is q)) [
          | inl h ↦ let e : r ≡ q = (is_iff r q).0 h in rw h (rw (← e) (rw n refl))
          | inr h ↦ rw h refl
        ])
  | inr (keys, m) ↦
      rw (m, dispose_thing)
        (rw (get_at-pop_at r q s.subs)
          (elim (Bool-cases (r is q)) [ inl h ↦ rw h refl | inr h ↦ rw h refl ]))
]

live_count-dispose_thing :
    (r q j : ℕ) (s : Subscriber)
    → IsCoherent s
    → live_count q j (dispose_thing r s).live ≡ (if r is q then 0 else live_count q j s.live)
unfolding dispose_thing
live_count-dispose_thing r q j s c = elim (Option-cases (get_at r s.subs)) [
  | inl n ↦
      rw (n, dispose_thing)
        (elim (Bool-cases (r is q)) [
          | inl h ↦ rw h (c q j ∙ rw (at_thing ((is_iff r q).0 h) n) refl)
          | inr h ↦ rw h refl
        ])
  | inr (keys, m) ↦
      rw (m, dispose_thing)
        (live_count-dispose_each r q j keys s.live (coherent_le s c q j)
          ∙ elim (Bool-cases (r is q)) [
            | inl h ↦ rw h (elim (Bool-cases (has_ident j keys)) [
              | inl t ↦ rw t refl
              | inr f ↦ rw f (c q j ∙ rw (at_some keys ((is_iff r q).0 h) m ∙ f) refl)
            ])
            | inr h ↦ rw h refl
          ])
]
  where
    at_thing : r ≡ q → get_at r s.subs ≡ none → is_subscribed q j s ≡ false
    at_thing e n = subst (λ k. is_subscribed k j s ≡ false) e (absent r j s n)

    at_some :
        (keys : List ℕ)
        → r ≡ q
        → get_at r s.subs ≡ some keys
        → is_subscribed q j s ≡ has_ident j keys
    at_some keys e m = subst (λ k. is_subscribed k j s ≡ has_ident j keys) e (present r j s keys m)

pub dispose_thing-IsCoherent :
    (r : ℕ) (s : Subscriber) → IsCoherent s → IsCoherent (dispose_thing r s)
dispose_thing-IsCoherent r s c q j =
    live_count-dispose_thing r q j s c ∙ ground (arith, is_subscribed-dispose_thing r q j s, c q j)

-- The loops: what is subscribed to after them, and coherence.
pub is_subscribed-dispose_things :
    (rs : List ℕ) (q j : ℕ) (s : Subscriber)
    → is_subscribed q j (dispose_things rs s)
      ≡ (if has_ident q rs then false else is_subscribed q j s)
unfolding dispose_things has_ident
is_subscribed-dispose_things [] q j s = refl
is_subscribed-dispose_things (r ∷ rs) q j s = ground (
  arith,
  is_subscribed-dispose_things rs q j (dispose_thing r s),
  is_subscribed-dispose_thing r q j s,
)

pub dispose_things-IsCoherent :
    (rs : List ℕ) (s : Subscriber) → IsCoherent s → IsCoherent (dispose_things rs s)
unfolding dispose_things
dispose_things-IsCoherent [] s c = c
dispose_things-IsCoherent (r ∷ rs) s c =
    dispose_things-IsCoherent rs (dispose_thing r s) (dispose_thing-IsCoherent r s c)

pub is_subscribed-unsubscribe_each :
    (r : ℕ) (keys : List ℕ) (q j : ℕ) (s : Subscriber)
    → is_subscribed q j (unsubscribe_each r keys s)
      ≡ (if r is q && has_ident j keys then false else is_subscribed q j s)
unfolding unsubscribe_each has_ident
is_subscribed-unsubscribe_each r [] q j s = ground arith
is_subscribed-unsubscribe_each r (i ∷ keys) q j s = ground (
  arith,
  is_subscribed-unsubscribe_each r keys q j (unsubscribe r i s),
  is_subscribed-unsubscribe r i q j s,
)

pub unsubscribe_each-IsCoherent :
    (r : ℕ) (keys : List ℕ) (s : Subscriber) → IsCoherent s → IsCoherent (unsubscribe_each r keys s)
unfolding unsubscribe_each
unsubscribe_each-IsCoherent r [] s c = c
unsubscribe_each-IsCoherent r (i ∷ keys) s c =
    unsubscribe_each-IsCoherent r keys (unsubscribe r i s) (unsubscribe-IsCoherent r i s c)
