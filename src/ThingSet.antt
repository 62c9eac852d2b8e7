-- ===== src/ThingSet.antt =====
-- wotpy/wot/exposed/thing_set.py: a group of ExposedThings.
-- An ExposedThing is known by the identity of its Thing, and `Heap` holds the Things; every
-- ExposedThing of a servient has a Thing of its own.
pub mod Lookup
use wot_py.Prelude.{
  ℕ, String, List, Option, none, some, Bool, true, false, ◌||◌, ◌==◌, ◌is◌, if◌then◌else◌, Dict,
  put, pop, has, values, next, contains, Error, value_error, assertion_error, Result, ok, err,
  ◌>>=◌, ◌>>◌, require, or_raise,
}
use wot_py.Platform.{Platform}
use wot_py.Interaction.{Interaction}
use wot_py.Thing.{Thing, thing_url_name}

abbrev pub Heap : Type 0
Heap = ℕ → Thing

abbrev pub ThingSet : Type 0
ThingSet = Dict ℕ

-- `contains`: the `in` compares by `__eq__`, so by the Thing.
unfoldable pub contains_thing : ℕ → ThingSet → Bool
contains_thing r set = contains (λ x. x is r) (values set)

unfoldable pub add_thing : Heap → ℕ → ThingSet → Result ThingSet
add_thing heap r set = if has (heap r).id set then err value_error else ok (put (heap r).id r set)

unfoldable pub find_by_interaction : Heap → Interaction → ThingSet → Option ℕ
find_by_interaction heap i set = next (λ x. (heap x).ident is i.thing) (values set)

module _ (env : Platform) where
  unfoldable pub is_thing_match : Heap → String → ℕ → Bool
  is_thing_match heap thing_id x =
      (heap x).id == thing_id || thing_url_name env (heap x) == thing_id

  unfoldable pub find_by_thing_id : Heap → String → ThingSet → Option ℕ
  find_by_thing_id heap thing_id set = next (is_thing_match heap thing_id) (values set)

  unfoldable pub remove_thing : Heap → String → ThingSet → Result ThingSet
  remove_thing heap thing_id set = do
    r ← or_raise (find_by_thing_id heap thing_id set) value_error
    require (has (heap r).id set) assertion_error
    ok (pop (heap r).id set)
