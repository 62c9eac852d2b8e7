-- ===== src/Thing/Changes.antt =====
-- Adding and removing interactions: `add_interaction` and `remove_interaction` of
-- wotpy/wot/thing.py, and the constructor's loops.
use wot_py.Prelude.{
  String, none, some, true, false, ◌≡◌, ◌≢◌, inl, inr, ◌↔◌, refl, sym, ap, ◌∙◌, arith, In, ok,
  Option-cases, Bool-cases, if◌then◌else◌,
}
use wot_py.Platform.{Platform}
use wot_py.Interaction.{Interaction, url_name}
use wot_py.Thing.{
  Thing, interactions, store, discard, is_match, find_interaction, add_interaction,
  remove_interaction,
}
use wot_py.Thing.Members.{
  In-store, In-store_self, In-store_of, In-discard, In-discard_of, store-AreKeyed, discard-AreKeyed,
}
use wot_py.Thing.Unique.{
  AreUnique, IsFormed, is_match-name, is_match-cases, find_interaction-eq, find_interaction-In,
  find_interaction-none, find_interaction-none_of,
}

module _ (env : Platform) where
  -- Nothing in the Thing answers to the name or to the URL name of the interaction.
  pub record IsNew (i : Interaction) (t : Thing) : Type 0 where
    pub name : find_interaction env i.name t ≡ none
    pub url_name : find_interaction env (url_name env i) t ≡ none

  -- `add_interaction` succeeds exactly for an interaction of this Thing whose name and URL name
  -- no interaction answers to, and then it writes it to the dictionary of its class.
  pub add_interaction_iff :
      (i : Interaction) (t u : Thing)
      → (add_interaction env i t ≡ ok u) ↔ ((i.thing ≡ t.ident) × IsNew i t × (u ≡ store i t))
  unfolding add_interaction
  add_interaction_iff i t u = (
    λ h. (ground arith, record { name = ground arith; url_name = ground arith }, ground arith),
    λ (own, new, e). rw (new.name, new.url_name) (ground arith),
  )

  IsNew-apart :
      (i x : Interaction) (t : Thing) (q : String)
      → IsNew i t
      → In x (interactions t)
      → is_match env q i ≡ true
      → is_match env q x ≡ false
  IsNew-apart i x t q new m h = elim (is_match-cases env q i h) [
    | inl e ↦ rw e at (find_interaction-none env t i.name x new.name m)
    | inr e ↦ rw e at (find_interaction-none env t (url_name env i) x new.url_name m)
  ]

  -- A new interaction has another name than those of the Thing.
  pub IsNew-ne :
      (i x : Interaction) (t : Thing) → IsNew i t → In x (interactions t) → x.name ≢ i.name
  IsNew-ne i x t new m e =
      let no : is_match env i.name x ≡ false =
        IsNew-apart i x t i.name new m (is_match-name env i) in
      let same : is_match env i.name x ≡ true = rw (← e) (is_match-name env x) in cc

  store-AreUnique :
      (i : Interaction) (t : Thing) → AreUnique env t → IsNew i t → AreUnique env (store i t)
  store-AreUnique i t u new q x y mx my hx hy = elim (In-store i x t mx) [
    | inl ex ↦ elim (In-store i y t my) [
      | inl ey ↦ ex ∙ sym ey
      | inr oy ↦
          let hi : is_match env q i ≡ true = rw (← ex) hx in
          let no : is_match env q y ≡ false = IsNew-apart i y t q new oy hi in cc
    ]
    | inr ox ↦ elim (In-store i y t my) [
      | inl ey ↦
          let hi : is_match env q i ≡ true = rw (← ey) hy in
          let no : is_match env q x ≡ false = IsNew-apart i x t q new ox hi in cc
      | inr oy ↦ u q x y ox oy hx hy
    ]
  ]

  ident-store : (i : Interaction) (t : Thing) → (store i t).ident ≡ t.ident
  unfolding store
  ident-store i t = ground arith

  -- Adding an interaction to a well-formed Thing, where it does not raise, keeps the Thing well
  -- formed: in particular at most one interaction answers to any name, be it as a name or as a URL
  -- name.
  pub add_interaction-IsFormed :
      (i : Interaction) (t u : Thing)
      → IsFormed env t
      → add_interaction env i t ≡ ok u
      → IsFormed env u
  add_interaction-IsFormed i t u h e =
      let (own, new, s) = (add_interaction_iff i t u).0 e in
      rw s (record {
        keyed = store-AreKeyed i t h.keyed;
        linked = λ x m.
            rw (ident-store i t)
              (elim (In-store i x t m) [ inl p ↦ rw p own | inr o ↦ h.linked x o ]);
        unique = store-AreUnique i t h.unique new;
      })

  -- After adding an interaction to a well-formed Thing, its name and its URL name find it, and any
  -- other name finds what it found before.
  pub find_interaction-add_interaction :
      (i : Interaction) (t u : Thing) (q : String)
      → IsFormed env t
      → add_interaction env i t ≡ ok u
      → find_interaction env q u ≡ (if is_match env q i then some i else find_interaction env q t)
  find_interaction-add_interaction i t u q h e =
      let (own, new, s) = (add_interaction_iff i t u).0 e in
      let uniq : AreUnique env (store i t) = store-AreUnique i t h.unique new in
      rw s (elim (Bool-cases (is_match env q i)) [
        | inl yes_i ↦
            rw yes_i (find_interaction-eq env (store i t) q i uniq (In-store_self i t) yes_i)
        | inr no_i ↦ rw no_i (elim (Option-cases (find_interaction env q t)) [
          | inr (x, fx) ↦
              let (m, hx) = find_interaction-In env t q x fx in
              find_interaction-eq env (store i t) q x uniq
                (In-store_of i x t h.keyed (IsNew-ne i x t new m) m) hx
              ∙ sym fx
          | inl nt ↦
              find_interaction-none_of env (store i t) q (λ x m. elim (In-store i x t m) [
                | inl p ↦ rw p no_i
                | inr o ↦ find_interaction-none env t q x nt o
              ])
              ∙ sym nt
        ])
      ])

  discard-AreUnique : (k : String) (t : Thing) → IsFormed env t → AreUnique env (discard k t)
  discard-AreUnique k t h q x y mx my hx hy =
      h.unique q x y (In-discard k x t h.keyed mx).0 (In-discard k y t h.keyed my).0 hx hy

  ident-discard : (k : String) (t : Thing) → (discard k t).ident ≡ t.ident
  unfolding discard
  ident-discard k t = refl

  discard-IsFormed : (k : String) (t : Thing) → IsFormed env t → IsFormed env (discard k t)
  discard-IsFormed k t h = record {
    keyed = discard-AreKeyed k t h.keyed;
    linked = λ x m. rw (ident-discard k t) (h.linked x (In-discard k x t h.keyed m).0);
    unique = discard-AreUnique k t h;
  }

  pub remove_interaction-found :
      (name : String) (i : Interaction) (t : Thing)
      → find_interaction env name t ≡ some i
      → remove_interaction env name t ≡ discard i.name t
  unfolding remove_interaction
  remove_interaction-found name i t e = rw (e, remove_interaction)

  pub remove_interaction-missing :
      (name : String) (t : Thing)
      → find_interaction env name t ≡ none
      → remove_interaction env name t ≡ t
  unfolding remove_interaction
  remove_interaction-missing name t e = rw (e, remove_interaction)

  -- Removing an interaction from a well-formed Thing, or a name that none answers to, keeps the
  -- Thing well formed.
  pub remove_interaction-IsFormed :
      (name : String) (t : Thing) → IsFormed env t → IsFormed env (remove_interaction env name t)
  remove_interaction-IsFormed name t h = elim (Option-cases (find_interaction env name t)) [
    | inl e ↦ rw (remove_interaction-missing name t e) h
    | inr (i, e) ↦ rw (remove_interaction-found name i t e) (discard-IsFormed i.name t h)
  ]

  -- What is left has another name than the removed interaction, so it is another interaction.
  left_over :
      (i x : Interaction) (t : Thing) (q : String)
      → IsFormed env t
      → In i (interactions t)
      → In x (interactions (discard i.name t))
      → is_match env q i ≡ true
      → is_match env q x ≡ false
  left_over i x t q h mi m hi =
      let (old, ne) = In-discard i.name x t h.keyed m in
      elim (Bool-cases (is_match env q x)) [
        | inl hx ↦ absurd (ne (ap (λ (z : Interaction). z.name) (h.unique q x i old mi hx hi)))
        | inr no_x ↦ no_x
      ]

  find-discard :
      (i : Interaction) (t : Thing) (q : String)
      → IsFormed env t
      → In i (interactions t)
      → find_interaction env q (discard i.name t)
        ≡ (if is_match env q i then none else find_interaction env q t)
  find-discard i t q h mi = elim (Bool-cases (is_match env q i)) [
    | inl yes_i ↦
        rw yes_i (
          find_interaction-none_of env (discard i.name t) q (λ x m. left_over i x t q h mi m yes_i))
    | inr no_i ↦ rw no_i (elim (Option-cases (find_interaction env q t)) [
      | inr (x, fx) ↦
          let (m, hx) = find_interaction-In env t q x fx in
          find_interaction-eq env (discard i.name t) q x (discard-AreUnique i.name t h)
            (In-discard_of i.name x t h.keyed (other_name i x t q h mi m no_i hx) m) hx
          ∙ sym fx
      | inl nt ↦
          find_interaction-none_of env (discard i.name t) q
            (λ x m. find_interaction-none env t q x nt (In-discard i.name x t h.keyed m).0)
          ∙ sym nt
    ])
  ]
    where
      other_name :
          (j x : Interaction) (v : Thing) (r : String)
          → IsFormed env v
          → In j (interactions v)
          → In x (interactions v)
          → is_match env r j ≡ false
          → is_match env r x ≡ true
          → x.name ≢ j.name
      other_name j x v r f mj mx nj hx e =
          let same : is_match env j.name x ≡ true = rw (← e) (is_match-name env x) in
          let one : x ≡ j = f.unique j.name x j mx mj same (is_match-name env j) in
          let yes_j : is_match env r j ≡ true = rw (← one) hx in cc

  -- Removing from a well-formed Thing by a name that an interaction answers to, its name or its URL
  -- name, makes it be found under neither, and leaves what every other name finds.
  pub find_interaction-remove_interaction :
      (name : String) (i : Interaction) (t : Thing) (q : String)
      → IsFormed env t
      → find_interaction env name t ≡ some i
      → find_interaction env q (remove_interaction env name t)
        ≡ (if is_match env q i then none else find_interaction env q t)
  find_interaction-remove_interaction name i t q h e =
      rw (remove_interaction-found name i t e)
        (find-discard i t q h (find_interaction-In env t name i e).0)
