-- ===== src/Thing/Members.antt =====
-- Which interactions stand in a Thing after a write or the pops of wotpy/wot/thing.py.
use wot_py.Prelude.{
  String, ◌++◌, ◌≡◌, ◌≢◌, ◌⊎◌, inl, inr, values, IsKeyed, In, In-append, In-append-left,
  In-append-right, In-values-put, In-values-put_self, In-values-put_of, In-values-pop,
  In-values-pop_of, In-values-pop_ne, put-IsKeyed, pop-IsKeyed,
}
use wot_py.Interaction.{Kind, property, action, event, Interaction, interaction_type}
use wot_py.Thing.{Thing, interactions, store_as, store, discard}

abbrev pub name_of : Interaction → String
name_of i = i.name

-- The dictionaries have each interaction under its name.
pub record AreKeyed (t : Thing) : Type 0 where
  pub properties : IsKeyed name_of t.properties
  pub actions : IsKeyed name_of t.actions
  pub events : IsKeyed name_of t.events

pub In-three :
    (x : Interaction) (t : Thing)
    → In x (interactions t)
    → In x (values t.properties) ⊎ (In x (values t.actions) ⊎ In x (values t.events))
unfolding interactions
In-three x t m = elim (In-append x (values t.properties) (values t.actions ++ values t.events) m) [
  | inl p ↦ inl p
  | inr r ↦ inr (In-append x (values t.actions) (values t.events) r)
]

pub In-three_of :
    (x : Interaction) (t : Thing)
    → In x (values t.properties) ⊎ (In x (values t.actions) ⊎ In x (values t.events))
    → In x (interactions t)
unfolding interactions
In-three_of x t (inl p) =
    In-append-left x (values t.properties) (values t.actions ++ values t.events) p
In-three_of x t (inr (inl a)) =
    In-append-right x (values t.properties) (values t.actions ++ values t.events)
      (In-append-left x (values t.actions) (values t.events) a)
In-three_of x t (inr (inr e)) =
    In-append-right x (values t.properties) (values t.actions ++ values t.events)
      (In-append-right x (values t.actions) (values t.events) e)

-- A membership is carried from one Thing to another dictionary by dictionary.
move-In :
    (x : Interaction) (t u : Thing) (Q : Type 0)
    → (In x (values t.properties) → Q ⊎ In x (values u.properties))
    → (In x (values t.actions) → Q ⊎ In x (values u.actions))
    → (In x (values t.events) → Q ⊎ In x (values u.events))
    → In x (interactions t)
    → Q ⊎ In x (interactions u)
move-In x t u Q f g h m = elim (In-three x t m) [
  | inl p ↦ elim (f p) [ inl q ↦ inl q | inr r ↦ inr (In-three_of x u (inl r)) ]
  | inr (inl a) ↦ elim (g a) [ inl q ↦ inl q | inr r ↦ inr (In-three_of x u (inr (inl r))) ]
  | inr (inr e) ↦ elim (h e) [ inl q ↦ inl q | inr r ↦ inr (In-three_of x u (inr (inr r))) ]
]

In-store_as :
    (k : Kind) (i x : Interaction) (t : Thing)
    → In x (interactions (store_as k i t))
    → (x ≡ i) ⊎ In x (interactions t)
unfolding store_as
In-store_as property i x t m =
    move-In x (store_as property i t) t (x ≡ i) (In-values-put i.name i x t.properties) inr inr m
In-store_as action i x t m =
    move-In x (store_as action i t) t (x ≡ i) inr (In-values-put i.name i x t.actions) inr m
In-store_as event i x t m =
    move-In x (store_as event i t) t (x ≡ i) inr inr (In-values-put i.name i x t.events) m

-- What stands in a Thing after a write is the interaction written or stood there before.
pub In-store :
    (i x : Interaction) (t : Thing)
    → In x (interactions (store i t))
    → (x ≡ i) ⊎ In x (interactions t)
unfolding store
In-store i x t m = In-store_as (interaction_type i) i x t m

In-store_as_self : (k : Kind) (i : Interaction) (t : Thing) → In i (interactions (store_as k i t))
unfolding store_as
In-store_as_self property i t =
    In-three_of i (store_as property i t) (inl (In-values-put_self i.name i t.properties))
In-store_as_self action i t =
    In-three_of i (store_as action i t) (inr (inl (In-values-put_self i.name i t.actions)))
In-store_as_self event i t =
    In-three_of i (store_as event i t) (inr (inr (In-values-put_self i.name i t.events)))

pub In-store_self : (i : Interaction) (t : Thing) → In i (interactions (store i t))
unfolding store
In-store_self i t = In-store_as_self (interaction_type i) i t

In-store_as_of :
    (k : Kind) (i x : Interaction) (t : Thing)
    → AreKeyed t
    → x.name ≢ i.name
    → In x (interactions t)
    → ⊥ ⊎ In x (interactions (store_as k i t))
unfolding store_as
In-store_as_of property i x t h n m =
    move-In x t (store_as property i t) ⊥
      (λ p. inr (In-values-put_of name_of i x t.properties h.properties n p)) inr inr m
In-store_as_of action i x t h n m =
    move-In x t (store_as action i t) ⊥ inr
      (λ p. inr (In-values-put_of name_of i x t.actions h.actions n p)) inr m
In-store_as_of event i x t h n m =
    move-In x t (store_as event i t) ⊥ inr inr
      (λ p. inr (In-values-put_of name_of i x t.events h.events n p)) m

-- A write keeps what has another name.
pub In-store_of :
    (i x : Interaction) (t : Thing)
    → AreKeyed t
    → x.name ≢ i.name
    → In x (interactions t)
    → In x (interactions (store i t))
unfolding store
In-store_of i x t h n m = elim (In-store_as_of (interaction_type i) i x t h n m) [
  | inl b ↦ absurd b
  | inr r ↦ r
]

pub store-AreKeyed : (i : Interaction) (t : Thing) → AreKeyed t → AreKeyed (store i t)
unfolding store
store-AreKeyed i t h = store_as-AreKeyed (interaction_type i)
  where
    store_as-AreKeyed : (k : Kind) → AreKeyed (store_as k i t)
    store_as-AreKeyed property = record {
      properties = put-IsKeyed name_of i t.properties h.properties;
      actions = h.actions;
      events = h.events;
    }
    store_as-AreKeyed action = record {
      properties = h.properties;
      actions = put-IsKeyed name_of i t.actions h.actions;
      events = h.events;
    }
    store_as-AreKeyed event = record {
      properties = h.properties;
      actions = h.actions;
      events = put-IsKeyed name_of i t.events h.events;
    }

pub discard-AreKeyed : (k : String) (t : Thing) → AreKeyed t → AreKeyed (discard k t)
unfolding discard
discard-AreKeyed k t h = record {
  properties = pop-IsKeyed name_of k t.properties h.properties;
  actions = pop-IsKeyed name_of k t.actions h.actions;
  events = pop-IsKeyed name_of k t.events h.events;
}

-- What is left after the pops stood there before, and has another name.
pub In-discard :
    (k : String) (x : Interaction) (t : Thing)
    → AreKeyed t
    → In x (interactions (discard k t))
    → In x (interactions t) × (x.name ≢ k)
unfolding discard
In-discard k x t h m = elim (In-three x (discard k t) m) [
  | inl p ↦ (
    In-three_of x t (inl (In-values-pop k x t.properties p)),
    In-values-pop_ne name_of k x t.properties h.properties p,
  )
  | inr (inl p) ↦ (
    In-three_of x t (inr (inl (In-values-pop k x t.actions p))),
    In-values-pop_ne name_of k x t.actions h.actions p,
  )
  | inr (inr p) ↦ (
    In-three_of x t (inr (inr (In-values-pop k x t.events p))),
    In-values-pop_ne name_of k x t.events h.events p,
  )
]

pub In-discard_of :
    (k : String) (x : Interaction) (t : Thing)
    → AreKeyed t
    → x.name ≢ k
    → In x (interactions t)
    → In x (interactions (discard k t))
unfolding discard
In-discard_of k x t h n m = elim (In-three x t m) [
  | inl p ↦
      In-three_of x (discard k t) (inl (In-values-pop_of name_of k x t.properties h.properties n p))
  | inr (inl p) ↦
      In-three_of x (discard k t) (inr (inl (In-values-pop_of name_of k x t.actions h.actions n p)))
  | inr (inr p) ↦
      In-three_of x (discard k t) (inr (inr (In-values-pop_of name_of k x t.events h.events n p)))
]
