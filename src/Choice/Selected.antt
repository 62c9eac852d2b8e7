-- ===== src/Choice/Selected.antt =====
-- wotpy/wot/servient.py: the client that `_default_select_client` selects.
use wot_py.Prelude.{
  ℕ, ◌≤◌, ◌+◌, String, List, [], ◌∷◌, some, Bool, true, false, if◌then◌else◌, ◌≡◌, ◌≢◌, ◌⊎◌, refl,
  sym, ap, ◌∙◌, subst, inl, inr, In, filter, next, next-true, next-none, contains, contains-true,
  contains_of, In-filter, In-filter_of, Bool-cases, Option-cases, arith, ok,
}
use wot_py.Platform.{Protocol, http, websockets, coap, mqtt}
use wot_py.Interaction.{Kind, property, action, event, same_protocol}
use wot_py.Interaction.Forms.{same_protocol_refl, same_protocol_sound}
use wot_py.Choice.{
  Urls, ThingDescription, is_supported_interaction, protocol_prefs, intrct_type, select_client,
  first_client,
}

-- All protocols are among the preferences of a kind.
all_preferred : (k : Kind) (p : Protocol) → In p (protocol_prefs k)
all_preferred property http = inl refl
all_preferred property coap = inr (inl refl)
all_preferred property websockets = inr (inr (inl refl))
all_preferred property mqtt = inr (inr (inr (inl refl)))
all_preferred action websockets = inl refl
all_preferred action mqtt = inr (inl refl)
all_preferred action coap = inr (inr (inl refl))
all_preferred action http = inr (inr (inr (inl refl)))
all_preferred event websockets = inl refl
all_preferred event mqtt = inr (inl refl)
all_preferred event coap = inr (inr (inl refl))
all_preferred event http = inr (inr (inr (inl refl)))

-- The place of a protocol in a list.
unfoldable pub place : Protocol → List Protocol → ℕ
place p [] = 0
place p (q ∷ qs) = if same_protocol q p then 0 else 1 + place p qs

next-is_first :
    (t : Protocol → Bool) (ps : List Protocol) (p q : Protocol)
    → next t ps ≡ some p
    → t q ≡ true
    → In q ps
    → place p ps ≤ place q ps
unfolding place next
next-is_first t [] p q h y m = absurd m
next-is_first t (r ∷ rs) p q h y m = elim (Bool-cases (t r)) [
  | inl e ↦
      let same : r ≡ p = ground arith in
      let here : same_protocol r p ≡ true =
        subst (λ z. same_protocol r z ≡ true) same (same_protocol_refl r) in
      ground (arith, here)
  | inr n ↦
      let other : same_protocol r q ≢ true =
        λ s. absurd (clash (sym n ∙ ap t (same_protocol_sound r q s) ∙ y)) in
      let rest : In q rs → place p rs ≤ place q rs = next-is_first t rs p q (rw n at h) y in
      elim m [
        | inl e ↦
            absurd (other (subst (λ z. same_protocol r z ≡ true) (sym e) (same_protocol_refl r)))
        | inr k ↦ let le = rest k in ground arith
      ]
]
  where
    clash : false ≡ true → ⊥
    clash x = cc

module _ (urls : Urls) (clients : List Protocol) (td : ThingDescription) (name : String) where
  -- A client that supports the interaction.
  abbrev pub IsCandidate : Protocol → Type 0
  IsCandidate p = In p clients × (is_supported_interaction urls td name p ≡ true)

  -- No supporting client is placed before `p` in the order of preference.
  abbrev pub IsPreferred : Kind → Protocol → Type 0
  IsPreferred kind p =
      IsCandidate p
      × ((q : Protocol)
          → IsCandidate q
          → place p (protocol_prefs kind) ≤ place q (protocol_prefs kind))

  abbrev supported : List Protocol
  supported = filter (is_supported_interaction urls td name) clients

  abbrev is_choice : Protocol → Bool
  is_choice p = contains (λ q. same_protocol q p) supported

  is_choice-IsCandidate : (p : Protocol) → is_choice p ≡ true → IsCandidate p
  is_choice-IsCandidate p h =
      let (q, m, e) = contains-true (λ q. same_protocol q p) supported h in
      subst IsCandidate (same_protocol_sound q p e)
        (In-filter (is_supported_interaction urls td name) clients q m)

  is_choice_of : (p : Protocol) → IsCandidate p → is_choice p ≡ true
  is_choice_of p (m, y) =
      contains_of (λ q. same_protocol q p) supported p
        (In-filter_of (is_supported_interaction urls td name) clients p m y) (same_protocol_refl p)

  -- For an interaction that the Thing Description has, the selection gives the client that comes
  -- first in the order of preference of its kind among those that support it; if none does, the
  -- first client, or an IndexError where there is none.
  pub select_client_lem :
      (kind : Kind)
      → intrct_type name td ≡ ok kind
      → ((p : Protocol) × (select_client urls clients td name ≡ ok p) × IsPreferred kind p)
        ⊎ (((q : Protocol) → In q clients → is_supported_interaction urls td name q ≡ false)
            × (select_client urls clients td name ≡ first_client clients))
  unfolding select_client
  select_client_lem kind h = elim (Option-cases (next is_choice (protocol_prefs kind))) [
    | inr (p, e) ↦ inl (
      p,
      rw (h, e) refl,
      (
        is_choice-IsCandidate p (next-true is_choice (protocol_prefs kind) p e),
        λ q c.
            next-is_first is_choice (protocol_prefs kind) p q e (is_choice_of q c)
              (all_preferred kind q),
      ),
    )
    | inl e ↦ inr (
      λ q m. elim (Bool-cases (is_supported_interaction urls td name q)) [
        | inl y ↦
            let a : is_choice q ≡ true = is_choice_of q (m, y) in
            let b : is_choice q ≡ false =
              next-none is_choice (protocol_prefs kind) q e (all_preferred kind q) in
            cc
        | inr n ↦ n
      ],
      rw (h, e) refl,
    )
  ]
