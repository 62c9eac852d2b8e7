-- ===== src/ThingSet/Lookup.antt =====
-- Finding, adding and removing ExposedThings by ID and by URL name.
use wot_py.Prelude.{
  ℕ, String, none, some, Bool, true, false, ◌is◌, ◌≡◌, ◌≢◌, ◌↔◌, ap, ◌∙◌, subst, arith, eq_refl,
  is_refl, is_iff, put, pop, has, values, In, IsKeyed, next-some, next-In, next-true, contains-true,
  contains_of, has-In, In-values-pop, In-values-pop_ne, In-values-pop_of, put-IsKeyed, pop-IsKeyed,
  ok, err, value_error,
}
use wot_py.Platform.{Platform}
use wot_py.Thing.{thing_url_name}
use wot_py.ThingSet.{
  Heap, ThingSet, contains_thing, add_thing, is_thing_match, find_by_thing_id, remove_thing,
}

abbrev pub id_of : Heap → ℕ → String
id_of heap r = (heap r).id

-- Each ExposedThing stands under the ID of its Thing.
abbrev pub IsIndexed : Heap → ThingSet → Type 0
IsIndexed heap set = IsKeyed (id_of heap) set

pub contains_thing_iff :
    (r : ℕ) (set : ThingSet) → (contains_thing r set ≡ true) ↔ In r (values set)
unfolding contains_thing
contains_thing_iff r set = (
  λ h.
      let (x, m, e) = contains-true (λ y. y is r) (values set) h in
      subst (λ z. In z (values set)) ((is_iff x r).0 e) m,
  λ m. contains_of (λ y. y is r) (values set) r m (is_refl r),
)

-- `add` succeeds exactly if no ExposedThing of the group has the ID.
pub add_thing_iff :
    (heap : Heap) (r : ℕ) (set set' : ThingSet)
    → (add_thing heap r set ≡ ok set')
      ↔ ((has (heap r).id set ≡ false) × (set' ≡ put (heap r).id r set))
unfolding add_thing
add_thing_iff heap r set set' = ((λ h. ground arith), λ h. ground arith)

pub add_thing-IsIndexed :
    (heap : Heap) (r : ℕ) (set set' : ThingSet)
    → IsIndexed heap set
    → add_thing heap r set ≡ ok set'
    → IsIndexed heap set'
add_thing-IsIndexed heap r set set' h e =
    rw (((add_thing_iff heap r set set').0 e).1) (put-IsKeyed (id_of heap) r set h)

module _ (env : Platform) (heap : Heap) where
  -- At most one ExposedThing of the group answers to a name, as its ID or as its URL name.
  abbrev pub IsUnambiguous : ThingSet → Type 0
  IsUnambiguous set =
      (q : String) (r s : ℕ)
      → In r (values set)
      → In s (values set)
      → is_thing_match env heap q r ≡ true
      → is_thing_match env heap q s ≡ true
      → r ≡ s

  pub is_thing_match-id : (r : ℕ) → is_thing_match env heap (heap r).id r ≡ true
  unfolding is_thing_match
  is_thing_match-id r = ground (arith, eq_refl (heap r).id)

  pub is_thing_match-url_name :
      (r : ℕ) → is_thing_match env heap (thing_url_name env (heap r)) r ≡ true
  unfolding is_thing_match
  is_thing_match-url_name r = ground (arith, eq_refl (thing_url_name env (heap r)))

  -- In a group in which at most one ExposedThing answers to any name, by its ID or its URL name,
  -- what answers to a name is what is found, and what is found answers to the name.
  pub find_by_thing_id_iff :
      (q : String) (r : ℕ) (set : ThingSet)
      → IsUnambiguous set
      → (find_by_thing_id env heap q set ≡ some r)
        ↔ (In r (values set) × (is_thing_match env heap q r ≡ true))
  unfolding find_by_thing_id
  find_by_thing_id_iff q r set u =
      let p : ℕ → Bool = is_thing_match env heap q in
      (
        λ e. (next-In p (values set) r e, next-true p (values set) r e),
        λ (m, h).
            let (s, e) = next-some p (values set) r m h in
            e ∙ ap some (u q s r (next-In p (values set) s e) m (next-true p (values set) s e) h),
      )

  -- From a group that has each ExposedThing under its ID, and at most one for any name, a removal
  -- by the ID or by the URL name of one of them succeeds, takes that one out, and nothing else; the
  -- rest stands under its IDs as before.
  pub remove_thing_lem :
      (q : String) (r : ℕ) (set : ThingSet)
      → IsIndexed heap set
      → IsUnambiguous set
      → In r (values set)
      → is_thing_match env heap q r ≡ true
      → (set' : ThingSet) × (remove_thing env heap q set ≡ ok set')
        × IsIndexed heap set'
        × ((x : ℕ) → In x (values set') ↔ (In x (values set) × (x ≢ r)))
  unfolding remove_thing
  remove_thing_lem q r set h u m t =
      let found = (find_by_thing_id_iff q r set u).1 (m, t) in
      let there : has (heap r).id set ≡ true = has-In (id_of heap) r set h m in
      (
        pop (heap r).id set,
        rw (found, there),
        pop-IsKeyed (id_of heap) (heap r).id set h,
        λ x. (
          λ k. (
            In-values-pop (heap r).id x set k,
            λ e. In-values-pop_ne (id_of heap) (heap r).id x set h k (ap (id_of heap) e),
          ),
          λ (k, n).
              In-values-pop_of (id_of heap) (heap r).id x set h
                (λ e.
                  n (u (heap r).id x r k m (rw (← e) (is_thing_match-id x)) (is_thing_match-id r)))
                k,
        ),
      )

  -- A name that no ExposedThing of the group answers to cannot be removed.
  pub remove_thing-missing :
      (q : String) (set : ThingSet)
      → find_by_thing_id env heap q set ≡ none
      → remove_thing env heap q set ≡ err value_error
  unfolding remove_thing
  remove_thing-missing q set e = rw e
