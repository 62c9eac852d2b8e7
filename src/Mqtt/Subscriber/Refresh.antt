-- ===== src/Mqtt/Subscriber/Refresh.antt =====
-- wotpy/protocols/mqtt/handlers/subs.py: the effect of `refresh` and of `dispose`.
use wot_py.Prelude.{
  ℕ, List, [], ◌∷◌, map, true, false, not, ◌≤◌, ◌≡◌, ◌≢◌, ◌↔◌, refl, sym, ◌∙◌, subst, inl, inr, In,
  for_each, arith, filter, idents, has_ident, is_iff, is_refl, Bool-cases,
}
use wot_py.Platform.{Platform}
use wot_py.Interaction.{Interaction}
use wot_py.Servient.{no_error}
use wot_py.Exposed.{ExposedThing}
use wot_py.Exposed.WellFormed.{IsWellFormed}
use wot_py.Mqtt.Subscriber.{
  Subscriber, Observed, ident_of, refresh_thing, refresh, dispose, dispose_things,
}
use wot_py.Mqtt.Subscriber.Members.{
  is_subscribed, live_count, IsCoherent, is_subscribed-dispose_things, dispose_things-IsCoherent,
}
use wot_py.Mqtt.Subscriber.Expected.{IsShown, has_ident_iff, interaction_set_lem}
use wot_py.Mqtt.Subscriber.Loops.{
  dispose_things-observed, dropped_lem, has_ident-In_iff, not_both, refresh_thing_lem, unlisted,
}

-- The ExposedThing `q` has an interaction to observe of the identity `j`.
abbrev pub IsShownAt : (ℕ → ExposedThing) → Observed → ℕ → ℕ → Type 0
IsShownAt heap o q j = (i : Interaction) × IsShown o (heap q) i × (i.ident ≡ j)

module _ (env : Platform) where
  one_thing :
      (heap : ℕ → ExposedThing) (r : ℕ) (s : Subscriber)
      → IsWellFormed env (heap r)
      → IsCoherent s
      → (t : Subscriber) × (refresh_thing env heap r s ≡ no_error t)
        × IsCoherent t
        × (t.observed ≡ s.observed)
        × ((j : ℕ) → (is_subscribed r j t ≡ true) ↔ IsShownAt heap s.observed r j)
        × ((q j : ℕ) → q ≢ r → is_subscribed q j t ≡ is_subscribed q j s)
  one_thing heap r s w c =
      let (expected, e, d, iff) = interaction_set_lem env (heap r) w s.observed in
      let (t, f, b) = refresh_thing_lem env heap r s expected e d (λ i m. (iff i).0 m) w c in
      let at_r : (j : ℕ) → is_subscribed r j t ≡ has_ident j (map ident_of expected) =
        λ j. ground (arith, b.entries r j, is_refl r) in
      (
        t,
        f,
        b.coherent,
        b.same_kind,
        λ j. (
          λ h.
              let (i, m, s) = (has_ident_iff j expected).0 (sym (at_r j) ∙ h) in
              (i, (iff i).0 m, s),
          λ (i, m, s). at_r j ∙ (has_ident_iff j expected).1 (i, (iff i).1 m, s),
        ),
        λ q j n. ground (arith, b.entries q j, is_iff r q),
      )

  each_thing :
      (heap : ℕ → ExposedThing) (rs : List ℕ) (s : Subscriber)
      → ((r : ℕ) → In r rs → IsWellFormed env (heap r))
      → IsCoherent s
      → (t : Subscriber) × (for_each (refresh_thing env heap) rs s ≡ no_error t)
        × IsCoherent t
        × (t.observed ≡ s.observed)
        × ((q j : ℕ) → In q rs → (is_subscribed q j t ≡ true) ↔ IsShownAt heap s.observed q j)
        × ((q j : ℕ) → ¬ In q rs → is_subscribed q j t ≡ is_subscribed q j s)
  unfolding for_each
  each_thing heap [] s w c = (s, refl, c, refl, λ q j m. absurd m, λ q j n. refl)
  each_thing heap (r ∷ rs) s w c =
      let (u, e, cu, ku, at_r, others) = one_thing heap r s (w r (inl refl)) c in
      let (t, f, ct, kt, in_rs, rest) = each_thing heap rs u (λ q m. w q (inr m)) cu in
      (
        t,
        rw e f,
        ct,
        kt ∙ ku,
        λ q j m. elim (Bool-cases (has_ident q rs)) [
          | inl h ↦
              subst (λ o. (is_subscribed q j t ≡ true) ↔ IsShownAt heap o q j) ku
                (in_rs q j ((has_ident-In_iff q rs).0 h))
          | inr h ↦
              let out : ¬ In q rs =
                λ n. not_both (has_ident q rs) ((has_ident-In_iff q rs).1 n) h in
              let same : q ≡ r = elim m [ inl x ↦ x | inr n ↦ absurd (out n) ] in
              subst (λ b. (b ≡ true) ↔ IsShownAt heap s.observed q j) (sym (rest q j out))
                (subst (λ k. (is_subscribed k j u ≡ true) ↔ IsShownAt heap s.observed k j)
                  (sym same) (at_r j))
        ],
        λ q j n. rest q j (λ m. n (inr m)) ∙ others q j (λ x. n (inl x)),
      )

  -- A refresh of a coherent subscriber, over well-formed ExposedThings, does not raise. After it
  -- there is a live subscription to an interaction exactly if its ExposedThing is exposed and the
  -- interaction is one to observe (an observable property, or an event), no interaction is subscribed
  -- to twice, and the subscriber is coherent.
  pub refresh_lem :
      (heap : ℕ → ExposedThing) (exposed : List ℕ) (s : Subscriber)
      → ((r : ℕ) → In r exposed → IsWellFormed env (heap r))
      → IsCoherent s
      → (t : Subscriber) × (refresh env heap exposed s ≡ no_error t)
        × IsCoherent t
        × ((q j : ℕ) → (live_count q j t.live ≡ 1) ↔ (In q exposed × IsShownAt heap s.observed q j))
        × ((q j : ℕ) → live_count q j t.live ≤ 1)
  unfolding refresh
  refresh_lem heap exposed s w c =
      let dropped = filter (λ r. not (has_ident r exposed)) (idents s.subs) in
      let start : Subscriber = dispose_things dropped s in
      let k : start.observed ≡ s.observed = dispose_things-observed dropped s in
      let (t, e, ct, kt, inside, outside) =
        each_thing heap exposed start w (dispose_things-IsCoherent dropped s c) in
      let gone : (q j : ℕ) → ¬ In q exposed → is_subscribed q j t ≡ false =
        λ q j n. outside q j n ∙ dropped_lem exposed q j s n in
      (
        t,
        e,
        ct,
        λ q j. (
          λ h. elim (Bool-cases (has_ident q exposed)) [
            | inl x ↦
                let m = (has_ident-In_iff q exposed).0 x in
                (
                  m,
                  subst (λ o. IsShownAt heap o q j) k
                      ((inside q j m).0 (ground (arith, ct q j, h))),
                )
            | inr x ↦
                let out : ¬ In q exposed =
                  λ m. not_both (has_ident q exposed) ((has_ident-In_iff q exposed).1 m) x in
                absurd (ground (arith, ct q j, gone q j out, h))
          ],
          λ (m, i).
              let y = (inside q j m).1 (subst (λ o. IsShownAt heap o q j) (sym k) i) in
              ground (arith, ct q j, y),
        ),
        λ q j. ground (arith, ct q j),
      )

-- A disposal ends all subscriptions.
pub dispose_lem : (s : Subscriber) → IsCoherent s → (q j : ℕ) → live_count q j (dispose s).live ≡ 0
unfolding dispose
dispose_lem s c q j =
    dispose_things-IsCoherent (idents s.subs) s c q j
    ∙ ground (arith, is_subscribed-dispose_things (idents s.subs) q j s, unlisted q j s)
