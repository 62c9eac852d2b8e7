-- ===== src/Mqtt/Subscriber/Loops.antt =====
-- wotpy/protocols/mqtt/handlers/subs.py: the loops of the refresh of one ExposedThing.
use wot_py.Prelude.{
  ℕ, List, [], ◌∷◌, map, Bool, true, false, not, ◌&&◌, ◌is◌, if◌then◌else◌, ◌≡◌, ◌↔◌, refl, sym, ap,
  ◌∙◌, subst, inl, inr, In, ok, arith, filter, In-filter, idents, has_ident, has_ident-filter,
  get_at-absent, is_iff, is_refl, Bool-cases,
}
use wot_py.Platform.{Platform}
use wot_py.Interaction.{Interaction}
use wot_py.Servient.{no_error}
use wot_py.Exposed.{ExposedThing, Observable}
use wot_py.Exposed.WellFormed.{IsWellFormed}
use wot_py.Mqtt.Subscriber.{
  Subscriber, thing_subs, ident_of, unsubscribe_each, unsubscribe, subscribe, subscribe_each,
  stream_of, with_thing, refresh_thing, dispose_things, dispose_thing, interaction_set,
}
use wot_py.Mqtt.Subscriber.Members.{
  is_subscribed, IsCoherent, is_subscribed-subscribe, subscribe-IsCoherent,
  is_subscribed-with_thing, with_thing-IsCoherent, is_subscribed-unsubscribe_each,
  unsubscribe_each-IsCoherent, is_subscribed-dispose_things,
}
use wot_py.Mqtt.Subscriber.Expected.{IsShown, AreDistinct, stream_of_lem}

-- A filtered list of distinct interactions is one.
distinct-filter :
    (p : Interaction → Bool) (items : List Interaction)
    → AreDistinct items
    → AreDistinct (filter p items)
unfolding filter
distinct-filter p [] d = tt
distinct-filter p (i ∷ items) (n, d) = elim (Bool-cases (p i)) [
  | inl t ↦ rw t ((λ k m. n k (In-filter p items k m).0), distinct-filter p items d)
  | inr f ↦ rw f (distinct-filter p items d)
]

-- What a step makes of a subscriber: still coherent, of the same kind, with the entries that `v` says.
pub record Becomes (s t : Subscriber) (v : ℕ → ℕ → Bool) : Type 0 where
  pub coherent : IsCoherent t
  pub same_kind : t.observed ≡ s.observed
  pub entries : (q j : ℕ) → is_subscribed q j t ≡ v q j

unsubscribe_each-observed :
    (r : ℕ) (keys : List ℕ) (s : Subscriber) → (unsubscribe_each r keys s).observed ≡ s.observed
unfolding unsubscribe_each
unsubscribe_each-observed r [] s = refl
unsubscribe_each-observed r (i ∷ keys) s = unsubscribe_each-observed r keys (unsubscribe r i s)

dispose_thing-observed : (r : ℕ) (s : Subscriber) → (dispose_thing r s).observed ≡ s.observed
unfolding dispose_thing
dispose_thing-observed r s = ground arith

pub dispose_things-observed :
    (rs : List ℕ) (s : Subscriber) → (dispose_things rs s).observed ≡ s.observed
unfolding dispose_things
dispose_things-observed [] s = refl
dispose_things-observed (r ∷ rs) s =
    dispose_things-observed rs (dispose_thing r s) ∙ dispose_thing-observed r s

has_ident-filter_items :
    (p : ℕ → Bool) (j : ℕ) (items : List Interaction)
    → has_ident j (map ident_of (filter (λ (i : Interaction). p i.ident) items))
      ≡ has_ident j (map ident_of items) && p j
unfolding has_ident filter
has_ident-filter_items p j [] = refl
has_ident-filter_items p j (i ∷ items) = ground (arith, has_ident-filter_items p j items)

pub has_ident-In_iff : (q : ℕ) (rs : List ℕ) → (has_ident q rs ≡ true) ↔ In q rs
unfolding has_ident
has_ident-In_iff q [] = (λ h. absurd (ground (arith, h)), λ m. absurd m)
has_ident-In_iff q (r ∷ rs) =
    let iff = has_ident-In_iff q rs in
    (
      λ h. elim (Bool-cases (r is q)) [
        | inl t ↦ inl (sym ((is_iff r q).0 t))
        | inr f ↦ inr (iff.0 (ground (arith, h)))
      ],
      λ m. elim m [ inl e ↦ ground (arith, is_iff r q) | inr n ↦ ground (arith, iff.1 n) ],
    )

pub not_both : (b : Bool) → b ≡ true → b ≡ false → ⊥
not_both b t f = cc

-- Nothing is subscribed to for an ExposedThing that is not among the keys.
pub unlisted :
    (q j : ℕ) (s : Subscriber) → has_ident q (idents s.subs) ≡ false → is_subscribed q j s ≡ false
unfolding is_subscribed thing_subs has_ident
unlisted q j s n = rw (get_at-absent q s.subs n) refl

-- After the first loop, nothing is subscribed to for an ExposedThing that is not exposed.
pub dropped_lem :
    (exposed : List ℕ) (q j : ℕ) (s : Subscriber)
    → ¬ In q exposed
    → is_subscribed q j (dispose_things (filter (λ r. not (has_ident r exposed)) (idents s.subs)) s)
      ≡ false
dropped_lem exposed q j s n =
    let f : has_ident q exposed ≡ false = elim (Bool-cases (has_ident q exposed)) [
      | inl t ↦ absurd (n ((has_ident-In_iff q exposed).0 t))
      | inr x ↦ x
    ] in
    ground (
      arith,
      is_subscribed-dispose_things (filter (λ r. not (has_ident r exposed)) (idents s.subs)) q j s,
      has_ident-filter (λ r. not (has_ident r exposed)) q (idents s.subs),
      unlisted q j s,
    )

entry_lem : (r j : ℕ) (s : Subscriber) → is_subscribed r j s ≡ has_ident j (thing_subs r s)
unfolding is_subscribed
entry_lem r j s = refl

module _ (env : Platform) where
  subscribe_each_lem :
      (r : ℕ) (x : ExposedThing) (items : List Interaction) (s : Subscriber)
      → AreDistinct items
      → ((i : Interaction)
          → In i items
          → (o : Observable) × (stream_of env s.observed i.name x ≡ ok o))
      → ((i : Interaction) → In i items → is_subscribed r i.ident s ≡ false)
      → IsCoherent s
      → (t : Subscriber) × (subscribe_each env r x items s ≡ no_error t)
        × Becomes s t (λ q j.
          if r is q && has_ident j (map ident_of items) then true else is_subscribed q j s)
  unfolding subscribe_each has_ident
  subscribe_each_lem r x [] s d streams free c =
      (s, refl, record { coherent = c; same_kind = refl; entries = λ q j. ground arith })
  subscribe_each_lem r x (i ∷ items) s (n, d) streams free c =
      let (o, e) = streams i (inl refl) in
      let u : Subscriber = subscribe r i.ident s in
      let k : u.observed ≡ s.observed = unfold subscribe in refl in
      let still : (y : Interaction) → In y items → is_subscribed r y.ident u ≡ false = λ y m.
        ground (arith, is_subscribed-subscribe r i.ident r y.ident s, free y (inr m), n y m) in
      let (t, f, b) =
        subscribe_each_lem r x items u d
          (λ y m.
            subst (λ z. (o' : Observable) × (stream_of env z y.name x ≡ ok o')) (sym k)
              (streams y (inr m)))
          still (subscribe-IsCoherent r i.ident s (free i (inl refl)) c) in
      (
        t,
        rw e f,
        record {
          coherent = b.coherent;
          same_kind = b.same_kind ∙ k;
          entries = λ q j. ground (arith, b.entries q j, is_subscribed-subscribe r i.ident q j s);
        },
      )

  -- A section on the two loops of one ExposedThing, with the interactions that are expected of it.
  module _ (r : ℕ) (s : Subscriber) (expected : List Interaction) where
    abbrev gone : List ℕ
    gone = filter (λ i. not (has_ident i (map ident_of expected))) (thing_subs r (with_thing r s))

    abbrev pruned : Subscriber
    pruned = unsubscribe_each r gone (with_thing r s)

    abbrev new : List Interaction
    new = filter (λ (i : Interaction). not (has_ident i.ident (thing_subs r pruned))) expected

    pruned-observed : pruned.observed ≡ s.observed
    pruned-observed =
        unsubscribe_each-observed r gone (with_thing r s) ∙ (unfold with_thing in refl)

    pruned-entries :
        (q j : ℕ)
        → is_subscribed q j pruned ≡ (
            if r is q
            then is_subscribed q j s && has_ident j (map ident_of expected)
            else is_subscribed q j s)
    pruned-entries q j =
        is_subscribed-unsubscribe_each r gone q j (with_thing r s) ∙ elim (Bool-cases (r is q)) [
          | inl h ↦ rw h (
              subst
                (λ k.
                  (if has_ident j gone then false else is_subscribed k j (with_thing r s))
                  ≡ is_subscribed k j s && has_ident j (map ident_of expected))
                ((is_iff r q).0 h) here)
          | inr h ↦ rw h (is_subscribed-with_thing r q j s)
        ]
      where
        here :
            (if has_ident j gone then false else is_subscribed r j (with_thing r s))
            ≡ is_subscribed r j s && has_ident j (map ident_of expected)
        here = ground (
          arith,
          has_ident-filter (λ i. not (has_ident i (map ident_of expected))) j
              (thing_subs r (with_thing r s)),
          entry_lem r j (with_thing r s),
          is_subscribed-with_thing r r j s,
        )

    new-entries :
        (j : ℕ)
        → has_ident j (map ident_of new)
          ≡ has_ident j (map ident_of expected) && not (is_subscribed r j pruned)
    new-entries j =
        has_ident-filter_items (λ k. not (has_ident k (thing_subs r pruned))) j expected
        ∙ ap (λ b. has_ident j (map ident_of expected) && not b) (sym (entry_lem r j pruned))

    both_loops :
        (q j : ℕ)
        → (if r is q && has_ident j (map ident_of new) then true else is_subscribed q j pruned)
          ≡ (if r is q then has_ident j (map ident_of expected) else is_subscribed q j s)
    both_loops q j = elim (Bool-cases (r is q)) [
      | inl h ↦ rw h (
          subst
            (λ k.
              (if has_ident j (map ident_of new) then true else is_subscribed k j pruned)
              ≡ has_ident j (map ident_of expected))
            ((is_iff r q).0 h) here)
      | inr h ↦ rw h (pruned-entries q j ∙ rw h refl)
    ]
      where
        here :
            (if has_ident j (map ident_of new) then true else is_subscribed r j pruned)
            ≡ has_ident j (map ident_of expected)
        here = ground (arith, new-entries j, pruned-entries r j, is_refl r)

    free : (i : Interaction) → In i new → is_subscribed r i.ident pruned ≡ false
    free i m = ground (
      arith,
      entry_lem r i.ident pruned,
      (In-filter (λ (k : Interaction). not (has_ident k.ident (thing_subs r pruned))) expected i
          m).1,
    )

  pub refresh_thing_lem :
      (heap : ℕ → ExposedThing) (r : ℕ) (s : Subscriber) (expected : List Interaction)
      → interaction_set s.observed (heap r) ≡ ok expected
      → AreDistinct expected
      → ((i : Interaction) → In i expected → IsShown s.observed (heap r) i)
      → IsWellFormed env (heap r)
      → IsCoherent s
      → (t : Subscriber) × (refresh_thing env heap r s ≡ no_error t)
        × Becomes s t
            (λ q j. if r is q then has_ident j (map ident_of expected) else is_subscribed q j s)
  unfolding refresh_thing
  refresh_thing_lem heap r s expected e d shown w c =
      let test : Interaction → Bool =
        λ i. not (has_ident i.ident (thing_subs r (pruned r s expected))) in
      let streams : (i : Interaction)
          → In i (new r s expected)
          → (o : Observable) × (stream_of env (pruned r s expected).observed i.name (heap r)
              ≡ ok o) =
        λ i m.
          rw (pruned-observed r s expected)
            (stream_of_lem env (heap r) w s.observed i (shown i (In-filter test expected i m).0)) in
      let (t, f, b) =
        subscribe_each_lem r (heap r) (new r s expected) (pruned r s expected)
          (distinct-filter test expected d) streams (free r s expected)
          (unsubscribe_each-IsCoherent r (gone r s expected) (with_thing r s)
            (with_thing-IsCoherent r s c)) in
      (
        t,
        rw e f,
        record {
          coherent = b.coherent;
          same_kind = b.same_kind ∙ pruned-observed r s expected;
          entries = λ q j. b.entries q j ∙ both_loops r s expected q j;
        },
      )
