-- ===== src/Ws/Client/Supported.antt =====
-- wotpy/protocols/ws/client.py: in every interleaving, what a request relies on is there.
use wot_py.Prelude.{
  some-injective, ℕ, String, Option, none, some, true, false, ◌is◌, ◌≡◌, ◌≢◌, refl, sym, ap, ◌∙◌,
  subst, inl, inr, eq_refl, arith, Bool-cases, is_iff, ==-of-ne,
}
use wot_py.Exposed.{set_at}
use wot_py.Refs.{ConnRefCounter, increase, decrease, has_any}
use wot_py.Refs.Members.{is_ref, is_ref-increase, is_ref-decrease, has_any_iff}
use wot_py.Ws.Client.{WsClient, Ending}
use wot_py.Ws.Client.Kept.{
  holds, uses, sends, owns, is_on, has_conditions, has_message, KeepsUrls, Preserves,
}
use wot_py.Ws.Client.Steps.{
  Tasks, Phase, starting, connecting, ready, writing, written, waiting, woken, closing, draining,
  finished, System, moved,
}

-- What the request `k` relies on in a phase.
pub record HasSupport (tasks : Tasks) (k : ℕ) (p : Phase) (lock : Option ℕ) (c : WsClient)
    : Type 0 where
  pub reference : holds p ≡ true → is_ref (tasks.url k) (tasks.ref_id k) c.counter ≡ true
  pub connection : uses p ≡ true → is_on (c.at_url (tasks.url k)) ≡ true
  pub conditions : sends p ≡ true → has_conditions (c.at_url (tasks.url k)) ≡ true
  pub answer : p ≡ woken → has_message (tasks.msg_id k) (c.at_url (tasks.url k)) ≡ true
  pub locked : owns p ≡ true → lock ≡ some k
  pub alone :
      (r : Ending) → p ≡ draining r → (q : String) → is_ref (tasks.url k) q c.counter ≡ false

abbrev pub IsSupported : Tasks → System → Type 0
IsSupported tasks s = (k : ℕ) → HasSupport tasks k (s.phase k) s.holder s.client

sends-uses : (p : Phase) → sends p ≡ true → uses p ≡ true
sends-uses writing h = refl
sends-uses written h = refl
sends-uses waiting h = refl
sends-uses woken h = refl
sends-uses starting h = cc
sends-uses connecting h = cc
sends-uses ready h = cc
sends-uses (closing r) h = cc
sends-uses (draining r) h = cc
sends-uses (finished r) h = cc

-- Support that a change of the lock and the client leaves to a request that does not move.
pub keeps_support :
    (tasks : Tasks) (j : ℕ) (p : Phase) (lock lock' : Option ℕ) (c d : WsClient)
    → (holds p ≡ true
        → is_ref (tasks.url j) (tasks.ref_id j) c.counter ≡ true
        → is_ref (tasks.url j) (tasks.ref_id j) d.counter ≡ true)
    → (uses p ≡ true → Preserves (c.at_url (tasks.url j)) (d.at_url (tasks.url j)))
    → (owns p ≡ true → (lock' ≡ some j) × (d.counter ≡ c.counter))
    → HasSupport tasks j p lock c
    → HasSupport tasks j p lock' d
keeps_support tasks j p lock lock' c d refs urls own h = record {
  reference = λ e. refs e (h.reference e);
  connection = λ e. (urls e).on (h.connection e);
  conditions = λ e. (urls (sends-uses p e)).conditioned (h.conditions e);
  answer = λ e. (urls (ap uses e)).stored (tasks.msg_id j) (h.answer e);
  locked = λ e. (own e).0;
  alone = λ r e q. ap (is_ref (tasks.url j) q) (own (ap owns e)).1 ∙ h.alone r e q;
}

-- A step that moves the request `k`.
pub moved-IsSupported :
    (tasks : Tasks) (k : ℕ) (p : Phase) (lock : Option ℕ) (d : WsClient) (s : System)
    → HasSupport tasks k p lock d
    → ((j : ℕ)
        → j ≢ k
        → HasSupport tasks j (s.phase j) s.holder s.client
        → HasSupport tasks j (s.phase j) lock d)
    → IsSupported tasks s
    → IsSupported tasks (moved k p lock d s)
unfolding moved set_at
moved-IsSupported tasks k p lock d s new old i j = elim (Bool-cases (j is k)) [
  | inl t ↦
      let e : j ≡ k = (is_iff j k).0 t in
      rw t (subst (λ n. HasSupport tasks n p lock d) (sym e) new)
  | inr f ↦ rw f (old j (λ e. ground (arith, is_iff j k)) (i j))
]

-- A request of which nothing is left to support.
pub no_support :
    (tasks : Tasks) (k : ℕ) (r : Ending) (lock : Option ℕ) (c : WsClient)
    → HasSupport tasks k (finished r) lock c
no_support tasks k r lock c = record {
  reference = λ e. cc;
  connection = λ e. cc;
  conditions = λ e. cc;
  answer = λ e. absurd (not_woken e);
  locked = λ e. cc;
  alone = λ q e. absurd (not_draining q e);
}
  where
    not_woken : finished r ≡ woken → ⊥
    not_woken e = cc

    not_draining : (q : Ending) → finished r ≡ draining q → ⊥
    not_draining q e = cc

-- The others at a step that takes the free lock: none of them owns it.
pub not_owned :
    (tasks : Tasks) (j : ℕ) (s : System)
    → s.holder ≡ none
    → HasSupport tasks j (s.phase j) s.holder s.client
    → owns (s.phase j) ≡ true
    → ⊥
not_owned tasks j s free h e = none_some (sym free ∙ h.locked e)
  where
    none_some : none ≡ some j → ⊥
    none_some x = cc

pub not_owned_by :
    (tasks : Tasks) (j k : ℕ) (s : System)
    → s.holder ≡ some k
    → j ≢ k
    → HasSupport tasks j (s.phase j) s.holder s.client
    → owns (s.phase j) ≡ true
    → ⊥
not_owned_by tasks j k s held n h e = n (sym (some-injective (sym held ∙ h.locked e)))

-- A step of `k` that keeps the lock and the references.
pub quiet :
    (tasks : Tasks) (k : ℕ) (p : Phase) (d : WsClient) (s : System)
    → d.counter ≡ s.client.counter
    → KeepsUrls s.client d
    → HasSupport tasks k p s.holder d
    → IsSupported tasks s
    → IsSupported tasks (moved k p s.holder d s)
quiet tasks k p d s e urls new i =
    moved-IsSupported tasks k p s.holder d s new
      (λ j n h.
        keeps_support tasks j (s.phase j) s.holder s.holder s.client d
          (λ x r. ap (is_ref (tasks.url j) (tasks.ref_id j)) e ∙ r) (λ x. urls (tasks.url j))
          (λ x. (h.locked x, e)) h)
      i

uses-not_owns : (p : Phase) → uses p ≡ true → owns p ≡ true → ⊥
uses-not_owns connecting u o = cc
uses-not_owns (draining r) u o = cc
uses-not_owns starting u o = cc
uses-not_owns ready u o = cc
uses-not_owns writing u o = cc
uses-not_owns written u o = cc
uses-not_owns waiting u o = cc
uses-not_owns woken u o = cc
uses-not_owns (closing r) u o = cc
uses-not_owns (finished r) u o = cc

pub uses-holds : (p : Phase) → uses p ≡ true → holds p ≡ true
uses-holds ready u = refl
uses-holds writing u = refl
uses-holds written u = refl
uses-holds waiting u = refl
uses-holds woken u = refl
uses-holds starting u = cc
uses-holds connecting u = cc
uses-holds (closing r) u = cc
uses-holds (draining r) u = cc
uses-holds (finished r) u = cc

module _ (tasks : Tasks) (k : ℕ) (lock : Option ℕ) (c : WsClient) where
  pub using_support :
      (p : Phase)
      → uses p ≡ true
      → is_ref (tasks.url k) (tasks.ref_id k) c.counter ≡ true
      → is_on (c.at_url (tasks.url k)) ≡ true
      → (sends p ≡ true → has_conditions (c.at_url (tasks.url k)) ≡ true)
      → (p ≡ woken → has_message (tasks.msg_id k) (c.at_url (tasks.url k)) ≡ true)
      → HasSupport tasks k p lock c
  using_support p u ref on cond ans = record {
    reference = λ e. ref;
    connection = λ e. on;
    conditions = cond;
    answer = ans;
    locked = λ o. absurd (uses-not_owns p u o);
    alone = λ r e. absurd (uses-not_owns p u (ap owns e));
  }

  pub closing_support :
      (r : Ending)
      → is_ref (tasks.url k) (tasks.ref_id k) c.counter ≡ true
      → HasSupport tasks k (closing r) lock c
  closing_support r ref = record {
    reference = λ e. ref;
    connection = λ e. cc;
    conditions = λ e. cc;
    answer = λ e. absurd (not_closing (ap uses e));
    locked = λ e. cc;
    alone = λ q e. absurd (not_closing (ap owns e));
  }
    where
      not_closing : false ≡ true → ⊥
      not_closing e = cc

  pub connecting_support :
      is_ref (tasks.url k) (tasks.ref_id k) c.counter ≡ true
      → lock ≡ some k
      → HasSupport tasks k connecting lock c
  connecting_support ref held = record {
    reference = λ e. ref;
    connection = λ e. cc;
    conditions = λ e. cc;
    answer = λ e. absurd (no_use (ap uses e));
    locked = λ e. held;
    alone = λ q e. absurd (no_ref (ap holds e));
  }
    where
      no_use : false ≡ true → ⊥
      no_use e = cc

      no_ref : true ≡ false → ⊥
      no_ref e = cc

  pub draining_support :
      (r : Ending)
      → lock ≡ some k
      → ((q : String) → is_ref (tasks.url k) q c.counter ≡ false)
      → HasSupport tasks k (draining r) lock c
  draining_support r held none_left = record {
    reference = λ e. cc;
    connection = λ e. cc;
    conditions = λ e. cc;
    answer = λ e. absurd (not_draining (ap uses e));
    locked = λ e. held;
    alone = λ q e. none_left;
  }
    where
      not_draining : false ≡ true → ⊥
      not_draining e = cc

-- No two requests have the same UUID for their reference.
abbrev pub HaveOwnRefs : Tasks → Type 0
HaveOwnRefs tasks = (j k : ℕ) → j ≢ k → tasks.ref_id j ≢ tasks.ref_id k

pub keeps_ref-increase :
    (url ref u q : String) (c : ConnRefCounter)
    → is_ref u q c ≡ true
    → is_ref u q (increase url ref c) ≡ true
keeps_ref-increase url ref u q c h = ground (arith, is_ref-increase url ref u q c, h)

pub keeps_ref-decrease :
    (url ref u q : String) (c : ConnRefCounter)
    → ref ≢ q
    → is_ref u q c ≡ true
    → is_ref u q (decrease url ref c) ≡ true
keeps_ref-decrease url ref u q c n h =
    ground (arith, is_ref-decrease url ref u q c, ==-of-ne ref q n, h)

pub has_ref-increase :
    (url ref : String) (c : ConnRefCounter) → is_ref url ref (increase url ref c) ≡ true
has_ref-increase url ref c =
    ground (arith, is_ref-increase url ref url ref c, eq_refl url, eq_refl ref)

pub no_refs :
    (url : String) (c : ConnRefCounter)
    → has_any url c ≡ false
    → (q : String) → is_ref url q c ≡ false
no_refs url c h q = elim (Bool-cases (is_ref url q c)) [
  | inl t ↦ absurd (clash ((has_any_iff url c).1 (q, t)))
  | inr f ↦ f
]
  where
    clash : has_any url c ≡ true → ⊥
    clash t = cc
