-- ===== src/Interaction/Forms.antt =====
-- Adding, removing and cleaning the forms of an interaction.
use wot_py.Prelude.{
  String, List, [], ◌∷◌, ◌++◌, Bool, true, false, not, ◌≡◌, ◌≢◌, inl, inr, ◌↔◌, refl, sym, ap, ◌∙◌,
  arith, eq_iff, eq_refl, All, All-append, Bool-cases, ok, contains, filter, is_refl, is_iff, ◌is◌,
}
use wot_py.Platform.{Platform, Protocol, http, websockets, coap, mqtt, Op, absent, single, several}
use wot_py.Interaction.{
  Form, Interaction, same_protocol, same_texts, same_op, same_form, remove_first, remove_form,
  form_id, add_form,
}

pub same_protocol_refl : (p : Protocol) → same_protocol p p ≡ true
unfolding same_protocol
same_protocol_refl http = refl
same_protocol_refl websockets = refl
same_protocol_refl coap = refl
same_protocol_refl mqtt = refl

pub same_protocol_sound : (p q : Protocol) → same_protocol p q ≡ true → p ≡ q
unfolding same_protocol
same_protocol_sound p q h = ground arith

same_texts_refl : (xs : List String) → same_texts xs xs ≡ true
unfolding same_texts
same_texts_refl [] = refl
same_texts_refl (x ∷ xs) = ground (arith, eq_refl x, same_texts_refl xs)

same_texts_sound : (xs ys : List String) → same_texts xs ys ≡ true → xs ≡ ys
unfolding same_texts
same_texts_sound [] [] h = refl
same_texts_sound [] (y ∷ ys) h = cc
same_texts_sound (x ∷ xs) [] h = cc
same_texts_sound (x ∷ xs) (y ∷ ys) h = ground (arith, eq_iff x y, same_texts_sound xs ys)

pub same_op_refl : (o : Op) → same_op o o ≡ true
unfolding same_op
same_op_refl absent = refl
same_op_refl (single x) = eq_refl x
same_op_refl (several xs) = same_texts_refl xs

pub same_op_sound : (o p : Op) → same_op o p ≡ true → o ≡ p
unfolding same_op
same_op_sound absent absent h = refl
same_op_sound (single x) (single y) h = ap single ((eq_iff x y).0 h)
same_op_sound (several xs) (several ys) h = ap several (same_texts_sound xs ys h)
same_op_sound absent (single y) h = cc
same_op_sound absent (several y) h = cc
same_op_sound (single x) absent h = cc
same_op_sound (single x) (several y) h = cc
same_op_sound (several x) absent h = cc
same_op_sound (several x) (single y) h = cc

pub same_form_refl : (f : Form) → same_form f f ≡ true
unfolding same_form
same_form_refl f = simp (is_refl, same_protocol_refl, eq_refl, same_op_refl)

pub same_form_sound : (f g : Form) → same_form f g ≡ true → f ≡ g
unfolding same_form
same_form_sound f g h = ground (
  arith,
  is_iff f.interaction g.interaction,
  same_protocol_sound f.protocol g.protocol,
  eq_iff f.href g.href,
  eq_iff f.content_type g.content_type,
  same_op_sound f.op g.op,
)

-- Removing forms one by one, as `_clean_protocol_forms` does.
unfoldable pub remove_all : List Form → List Form → List Form
remove_all [] gs = gs
remove_all (f ∷ fs) gs = remove_all fs (remove_first f gs)

unfoldable pub of_protocol : Protocol → Form → Bool
of_protocol p f = same_protocol f.protocol p

remove_all-keep :
    (p : Protocol) (fs gs : List Form) (g : Form)
    → All (λ f. of_protocol p f ≡ true) fs
    → of_protocol p g ≡ false
    → remove_all fs (g ∷ gs) ≡ g ∷ remove_all fs gs
unfolding remove_all remove_first of_protocol
remove_all-keep p [] gs g h n = refl
remove_all-keep p (f ∷ fs) gs g (h, hs) n = elim (Bool-cases (same_form f g)) [
  | inl t ↦ cc (ap (of_protocol p) (same_form_sound f g t))
  | inr e ↦ rw e (remove_all-keep p fs (remove_first f gs) g hs n)
]

filter-All : (p : Form → Bool) (fs : List Form) → All (λ f. p f ≡ true) (filter p fs)
unfolding filter
filter-All p [] = tt
filter-All p (f ∷ fs) = elim (Bool-cases (p f)) [
  | inl t ↦ rw t (t, filter-All p fs)
  | inr e ↦ rw e (filter-All p fs)
]

remove_first_self : (g : Form) (gs : List Form) → remove_first g (g ∷ gs) ≡ gs
unfolding remove_first
remove_first_self g gs = rw (same_form_refl g)

-- Removing the forms of one protocol, each at its first place, leaves the others in their order.
pub remove_all-filter :
    (p : Protocol) (gs : List Form)
    → remove_all (filter (of_protocol p) gs) gs ≡ filter (λ f. not (of_protocol p f)) gs
unfolding remove_all filter remove_first
remove_all-filter p [] = refl
remove_all-filter p (g ∷ gs) = elim (Bool-cases (of_protocol p g)) [
  | inl t ↦ rw t (
      ap (remove_all (filter (of_protocol p) gs)) (remove_first_self g gs) ∙ remove_all-filter p gs)
  | inr e ↦ rw e (
      remove_all-keep p (filter (of_protocol p) gs) gs g (filter-All (of_protocol p) gs) e
      ∙ ap (λ l. g ∷ l) (remove_all-filter p gs))
]

module _ (env : Platform) where
  -- The ids of the forms are pairwise different.
  abbrev pub AreApart : List Form → Type 0
  AreApart [] = Unit
  AreApart (f ∷ fs) = All (λ g. form_id env f ≢ form_id env g) fs × AreApart fs

  -- Every form belongs to the interaction, and no two have the same id.
  pub record HasGoodForms (i : Interaction) : Type 0 where
    pub owned : All (λ f. f.interaction ≡ i.ident) i.forms
    pub apart : AreApart i.forms

  AreApart-append :
      (fs : List Form) (f : Form)
      → AreApart fs
      → All (λ g. form_id env g ≢ form_id env f) fs
      → AreApart (fs ++ f ∷ [])
  AreApart-append [] f h n = (tt, tt)
  AreApart-append (g ∷ fs) f (h, hs) (n, ns) = (
    All-append (λ x. form_id env g ≢ form_id env x) fs (f ∷ []) h (n, tt),
    AreApart-append fs f hs ns,
  )

  contains_id_false :
      (f : Form) (fs : List Form)
      → contains (λ g. form_id env g is form_id env f) fs ≡ false
      → All (λ g. form_id env g ≢ form_id env f) fs
  unfolding contains
  contains_id_false f [] h = tt
  contains_id_false f (g ∷ fs) h = (λ e. ground arith, contains_id_false f fs (ground arith))

  contains_id_of :
      (f : Form) (fs : List Form)
      → All (λ g. form_id env g ≢ form_id env f) fs
      → contains (λ g. form_id env g is form_id env f) fs ≡ false
  unfolding contains
  contains_id_of f [] h = refl
  contains_id_of f (g ∷ fs) (h, hs) = ground (arith, contains_id_of f fs hs)

  -- `add_form` succeeds exactly on a form of this interaction whose id none of its forms has, and
  -- then appends it and changes nothing else.
  pub add_form_iff :
      (f : Form) (i j : Interaction)
      → (add_form env f i ≡ ok j) ↔ (
          (f.interaction ≡ i.ident)
          × All (λ g. form_id env g ≢ form_id env f) i.forms
          × (j ≡ record i { forms = i.forms ++ f ∷ [] }))
  unfolding add_form
  add_form_iff f i j = (
    λ h. (ground arith, contains_id_false f i.forms (ground arith), ground arith),
    λ (own, new, e). rw (contains_id_of f i.forms new) (ground arith),
  )

  -- Adding a form, where it does not raise, keeps the forms owned by the interaction and their ids
  -- apart.
  add_form-HasGoodForms :
      (f : Form) (i j : Interaction) → HasGoodForms i → add_form env f i ≡ ok j → HasGoodForms j
  add_form-HasGoodForms f i j good h =
      let (own, new, e) = (add_form_iff f i j).0 h in
      rw e (record {
        owned = All-append (λ x. x.interaction ≡ i.ident) i.forms (f ∷ []) good.owned (own, tt);
        apart = AreApart-append i.forms f good.apart new;
      })

  remove_first-last :
      (f : Form) (fs : List Form)
      → All (λ g. form_id env g ≢ form_id env f) fs
      → remove_first f (fs ++ f ∷ []) ≡ fs
  unfolding remove_first
  remove_first-last f [] h = rw (same_form_refl f)
  remove_first-last f (g ∷ fs) (n, ns) = elim (Bool-cases (same_form f g)) [
    | inl t ↦ absurd (n (ap (form_id env) (sym (same_form_sound f g t))))
    | inr e ↦ rw e (ap (λ l. g ∷ l) (remove_first-last f fs ns))
  ]

  -- Removing the form that was just added gives the interaction back.
  remove_form-add_form :
      (f : Form) (i j : Interaction) → add_form env f i ≡ ok j → remove_form f j ≡ i
  unfolding remove_form
  remove_form-add_form f i j h =
      let (own, new, e) = (add_form_iff f i j).0 h in
      rw e (ap (λ l. record i { forms = l }) (remove_first-last f i.forms new))
