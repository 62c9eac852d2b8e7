-- ===== src/Choice/Picked.antt =====
-- wotpy/protocols/utils.py: the form that `pick_form` picks.
use wot_py.Prelude.{
  String, List, [], ◌∷◌, ◌++◌, Option, none, some, Bool, false, ◌&&◌, ◌≡◌, ◌↔◌, refl, sym, ap, ◌∙◌,
  subst, inl, inr, In, filter, next, next-none, next-none_of_all, Bool-cases, Option-cases,
}
use wot_py.Choice.{Urls, FormDict, is_scheme_form, is_op, pick_form, first_or}

abbrev or_else : Option FormDict → Option FormDict → Option FormDict
or_else rest none = rest
or_else rest (some f) = some f

-- The head of what two filters leave is the first item that passes both.
first_of_filters :
    (p q : FormDict → Bool) (forms : List FormDict) (rest : Option FormDict)
    → first_or (filter q (filter p forms)) rest ≡ or_else rest (next (λ f. p f && q f) forms)
unfolding filter next
first_of_filters p q [] rest = refl
first_of_filters p q (f ∷ forms) rest = elim (Bool-cases (p f)) [
  | inl t ↦ elim (Bool-cases (q f)) [
    | inl u ↦ rw (t, u) refl
    | inr v ↦ rw (t, v) (first_of_filters p q forms rest)
  ]
  | inr n ↦ rw n (first_of_filters p q forms rest)
]

module _ (urls : Urls) (base : Option String) (op : Option String) (forms : List FormDict) where
  -- A form that serves a scheme: it resolves to a URL of the scheme, and has the op if one is asked for.
  abbrev pub serves : String → FormDict → Bool
  serves scheme f = is_scheme_form urls base (scheme ∷ []) f && is_op op f

  pick_form-cons :
      (scheme : String) (schemes : List String)
      → pick_form urls base forms (scheme ∷ schemes) op
        ≡ or_else (pick_form urls base forms schemes op) (next (serves scheme) forms)
  unfolding pick_form
  pick_form-cons scheme schemes =
      first_of_filters (is_scheme_form urls base (scheme ∷ [])) (is_op op) forms
        (pick_form urls base forms schemes op)

  pick_form-hit :
      (scheme : String) (schemes : List String) (f : FormDict)
      → next (serves scheme) forms ≡ some f
      → pick_form urls base forms (scheme ∷ schemes) op ≡ some f
  pick_form-hit scheme schemes f h =
      pick_form-cons scheme schemes ∙ ap (or_else (pick_form urls base forms schemes op)) h

  pick_form-miss :
      (scheme : String) (schemes : List String)
      → next (serves scheme) forms ≡ none
      → pick_form urls base forms (scheme ∷ schemes) op ≡ pick_form urls base forms schemes op
  pick_form-miss scheme schemes h =
      pick_form-cons scheme schemes ∙ ap (or_else (pick_form urls base forms schemes op)) h

  -- No form serves any of the schemes.
  abbrev pub NoneServes : List String → Type 0
  NoneServes schemes =
      (s : String) → In s schemes → (f : FormDict) → In f forms → serves s f ≡ false

  -- `f` is the first form that serves the first scheme that any form serves.
  abbrev pub IsBest : List String → FormDict → Type 0
  IsBest schemes f =
      (before after : List String) × (scheme : String) × (schemes ≡ before ++ scheme ∷ after)
      × NoneServes before
      × (next (serves scheme) forms ≡ some f)

  none-served :
      (scheme : String)
      → next (serves scheme) forms ≡ none
      → (f : FormDict) → In f forms
      → serves scheme f ≡ false
  none-served scheme e f m = next-none (serves scheme) forms f e m

  picked-IsBest :
      (schemes : List String) (f : FormDict)
      → pick_form urls base forms schemes op ≡ some f
      → IsBest schemes f
  picked-IsBest [] f e = absurd (clash (unfold pick_form in e))
    where
      clash : none ≡ some f → ⊥
      clash x = cc
  picked-IsBest (s ∷ schemes) f e = elim (Option-cases (next (serves s) forms)) [
    | inr (g, h) ↦
        let x : some g ≡ some f = sym (pick_form-hit s schemes g h) ∙ e in
        ([], schemes, s, refl, (λ t m. absurd m), h ∙ x)
    | inl n ↦
        let (before, after, t, k, free, h) =
          picked-IsBest schemes f (sym (pick_form-miss s schemes n) ∙ e) in
        (
          s ∷ before,
          after,
          t,
          ap (λ l. s ∷ l) k,
          λ u m g y. elim m [
            | inl q ↦ subst (λ w. serves w g ≡ false) (sym q) (none-served s n g y)
            | inr q ↦ free u q g y
          ],
          h,
        )
  ]

  IsBest-picked :
      (before after : List String) (scheme : String) (f : FormDict)
      → NoneServes before
      → next (serves scheme) forms ≡ some f
      → pick_form urls base forms (before ++ scheme ∷ after) op ≡ some f
  IsBest-picked [] after scheme f free h = pick_form-hit scheme after f h
  IsBest-picked (s ∷ before) after scheme f free h =
      pick_form-miss s (before ++ scheme ∷ after)
        (next-none_of_all (serves s) forms (λ g y. free s (inl refl) g y))
      ∙ IsBest-picked before after scheme f (λ u m. free u (inr m)) h

  -- `pick_form` gives a form exactly if that is the first form to serve the first of the schemes that
  -- is served at all, in the order in which the schemes are listed; the order of the forms decides
  -- only among the forms of that scheme.
  pub pick_form_iff :
      (schemes : List String) (f : FormDict)
      → (pick_form urls base forms schemes op ≡ some f) ↔ IsBest schemes f
  pick_form_iff schemes f = (
    picked-IsBest schemes f,
    λ (before, after, s, k, free, h).
        ap (λ l. pick_form urls base forms l op) k ∙ IsBest-picked before after s f free h,
  )
