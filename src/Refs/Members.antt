-- ===== src/Refs/Members.antt =====
-- wotpy/protocols/refs.py: which references a connection has after each operation.
use wot_py.Prelude.{
  String, List, [], ◌∷◌, ◌++◌, Option, none, some, Bool, true, false, not, ◌&&◌, ◌==◌,
  if◌then◌else◌, get, put, filter, contains, contains_text, ◌≡◌, ◌↔◌, refl, ap, ◌∙◌, inl, inr,
  Bool-cases, Option-cases, get-put, eq_iff, eq_refl, arith, subst,
}
use wot_py.Refs.{ConnRefCounter, add_ref, increase, decrease, has_any}

abbrev refs_of : Option (List String) → List String
refs_of none = []
refs_of (some refs) = refs

-- The reference `ref` points to the connection `conn`.
unfoldable pub is_ref : String → String → ConnRefCounter → Bool
is_ref conn ref c = contains_text ref (refs_of (get conn c))

contains_text-append :
    (q ref : String) (refs : List String)
    → contains_text q (refs ++ ref ∷ []) ≡ (if ref == q then true else contains_text q refs)
unfolding contains
contains_text-append q ref [] = refl
contains_text-append q ref (r ∷ refs) = ground (arith, contains_text-append q ref refs)

pub contains_text-filter :
    (q ref : String) (refs : List String)
    → contains_text q (filter (λ r. not (r == ref)) refs)
      ≡ (if ref == q then false else contains_text q refs)
unfolding contains filter
contains_text-filter q ref [] = ground arith
contains_text-filter q ref (r ∷ refs) =
    ground (arith, contains_text-filter q ref refs, eq_iff r ref, eq_iff ref q, eq_iff r q)

contains_text-add_ref :
    (q ref : String) (refs : List String)
    → contains_text q (add_ref ref refs) ≡ (if ref == q then true else contains_text q refs)
unfolding add_ref
contains_text-add_ref q ref refs = elim (Bool-cases (contains_text ref refs)) [
  | inl t ↦ rw t (elim (Bool-cases (ref == q)) [
    | inl e ↦ rw e (subst (λ k. contains_text k refs ≡ true) ((eq_iff ref q).0 e) t)
    | inr n ↦ rw n refl
  ])
  | inr f ↦ rw f (contains_text-append q ref refs)
]

is_ref-put :
    (conn k q : String) (refs : List String) (c : ConnRefCounter)
    → is_ref k q (put conn refs c) ≡ (if conn == k then contains_text q refs else is_ref k q c)
unfolding is_ref
is_ref-put conn k q refs c = elim (Bool-cases (conn == k)) [
  | inl t ↦ rw (get-put conn k refs c, t) refl
  | inr f ↦ rw (get-put conn k refs c, f) refl
]

-- New references of one connection that differ from the old ones in one reference.
changed :
    (conn ref k q : String) (old new : List String) (v : Bool) (c : ConnRefCounter)
    → refs_of (get conn c) ≡ old
    → contains_text q new ≡ (if ref == q then v else contains_text q old)
    → is_ref k q (put conn new c) ≡ (if conn == k && ref == q then v else is_ref k q c)
unfolding is_ref
changed conn ref k q old new v c e h = is_ref-put conn k q new c ∙ elim (Bool-cases (conn == k)) [
  | inl t ↦
      let same : refs_of (get k c) ≡ old =
        subst (λ j. refs_of (get j c) ≡ old) ((eq_iff conn k).0 t) e in
      rw (t, same) h
  | inr f ↦ rw f refl
]

-- After an increase the connection has the reference, and nothing else is changed.
pub is_ref-increase :
    (conn ref k q : String) (c : ConnRefCounter)
    → is_ref k q (increase conn ref c) ≡ (if conn == k && ref == q then true else is_ref k q c)
unfolding increase
is_ref-increase conn ref k q c = elim (Option-cases (get conn c)) [
  | inl e ↦
      rw (e, increase)
        (changed conn ref k q [] (add_ref ref []) true c (ap refs_of e)
          (contains_text-add_ref q ref []))
  | inr (refs, e) ↦
      rw (e, increase)
        (changed conn ref k q refs (add_ref ref refs) true c (ap refs_of e)
          (contains_text-add_ref q ref refs))
]

-- A reference that the connection does not have.
absent :
    (conn ref k q : String) (refs : List String) (c : ConnRefCounter)
    → refs_of (get conn c) ≡ refs
    → contains_text ref refs ≡ false
    → is_ref k q c ≡ (if conn == k && ref == q then false else is_ref k q c)
unfolding is_ref
absent conn ref k q refs c e n = elim (Bool-cases (conn == k)) [
  | inr f ↦ rw f refl
  | inl t ↦ elim (Bool-cases (ref == q)) [
    | inr g ↦ rw (t, g) refl
    | inl s ↦
        let same : refs_of (get k c) ≡ refs =
          subst (λ j. refs_of (get j c) ≡ refs) ((eq_iff conn k).0 t) e in
        let no : contains_text q refs ≡ false =
          subst (λ j. contains_text j refs ≡ false) ((eq_iff ref q).0 s) n in
        rw (t, s, same) no
  ]
]

-- After a decrease the connection does not have the reference, and nothing else is changed.
pub is_ref-decrease :
    (conn ref k q : String) (c : ConnRefCounter)
    → is_ref k q (decrease conn ref c) ≡ (if conn == k && ref == q then false else is_ref k q c)
unfolding decrease
is_ref-decrease conn ref k q c = elim (Option-cases (get conn c)) [
  | inl e ↦ rw (e, decrease) (absent conn ref k q [] c (ap refs_of e) (unfold contains in refl))
  | inr (refs, e) ↦ elim (Bool-cases (contains_text ref refs)) [
    | inl t ↦
        rw (e, decrease, t)
          (changed conn ref k q refs (filter (λ r. not (r == ref)) refs) false c (ap refs_of e)
            (contains_text-filter q ref refs))
    | inr f ↦ rw (e, decrease, f) (absent conn ref k q refs c (ap refs_of e) f)
  ]
]

-- `has_any` tells whether some reference points to the connection.
pub has_any_iff :
    (conn : String) (c : ConnRefCounter)
    → (has_any conn c ≡ true) ↔ ((ref : String) × (is_ref conn ref c ≡ true))
unfolding has_any is_ref contains
has_any_iff conn c = go (get conn c)
  where
    go :
        (o : Option (List String))
        → ((elim o [ none ↦ false | some refs ↦ not (wot_py.Refs.is_empty refs) ]) ≡ true)
          ↔ ((ref : String) × (contains_text ref (refs_of o) ≡ true))
    go none = ((λ h. cc), λ (r, h). cc)
    go (some []) = ((λ h. cc), λ (r, h). cc)
    go (some (r ∷ refs)) = ((λ h. (r, rw (eq_refl r) refl)), λ h. refl)
