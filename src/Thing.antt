-- ===== src/Thing.antt =====
-- wotpy/wot/thing.py: a Thing and its three dictionaries of interactions.
-- `next_ident` stands for the allocator: the identity that the next interaction object gets.
pub mod Members
pub mod Unique
pub mod Changes
pub mod Build
use Prim.Native.String
use wot_py.Prelude.{
  ℕ, suc, String, List, [], ◌∷◌, ◌++◌, Option, none, some, Bool, true, false, not, ◌||◌, ◌==◌, ◌is◌,
  Dict, put, pop, values, next, Error, value_error, Result, ok, err, ◌>>=◌, ◌>>◌, require,
}
use wot_py.Platform.{Platform}
use wot_py.Interaction.{
  Kind, property, action, event, Fragment, Interaction, interaction_type, new_interaction, url_name,
}

pub record Thing : Type 0 where
  pub ident : ℕ
  pub id : String
  pub title : String
  pub base : Option String
  pub properties : Dict Interaction
  pub actions : Dict Interaction
  pub events : Dict Interaction
  pub next_ident : ℕ

unfoldable pub interactions : Thing → List Interaction
interactions t = values t.properties ++ (values t.actions ++ values t.events)

-- The write through `interaction_dict_map`.
unfoldable pub store_as : Kind → Interaction → Thing → Thing
store_as property i t = record t { properties = put i.name i t.properties }
store_as action i t = record t { actions = put i.name i t.actions }
store_as event i t = record t { events = put i.name i t.events }

unfoldable pub store : Interaction → Thing → Thing
unfolding store_as
store i t = store_as (interaction_type i) i t

-- The three pops of `remove_interaction`.
unfoldable pub discard : String → Thing → Thing
discard name t = record t {
  properties = pop name t.properties;
  actions = pop name t.actions;
  events = pop name t.events;
}

abbrev pub found {ℓ} : {A : Type ℓ} → Option A → Bool
found none = false
found (some _) = true

module _ (env : Platform) where
  unfoldable pub thing_url_name : Thing → String
  thing_url_name t = env.slugify (String.◌++◌ t.title (String.◌++◌ "-" (env.uuid t.id)))

  unfoldable pub is_match : String → Interaction → Bool
  unfolding url_name
  is_match name i = i.name == name || url_name env i == name

  unfoldable pub find_interaction : String → Thing → Option Interaction
  find_interaction name t = next (is_match name) (interactions t)

  unfoldable pub add_interaction : Interaction → Thing → Result Thing
  add_interaction i t = do
    require (i.thing is t.ident) value_error
    require (not (found (find_interaction i.name t) || found (find_interaction (url_name env i) t)))
        value_error
    ok (store i t)

  unfoldable pub remove_interaction : String → Thing → Thing
  remove_interaction name t = elim (find_interaction name t) [
    | none ↦ t
    | some i ↦ discard i.name t
  ]

  -- `Property(thing=self, name=name, init_dict=fragment)` and its likes: a new object.
  unfoldable pub add_fragment : String → Fragment → Thing → Result Thing
  add_fragment name fragment t = do
    i ← new_interaction t.next_ident t.ident name fragment
    add_interaction i (record t { next_ident = suc t.next_ident })

  -- one loop of `_init_fragment_interactions`
  unfoldable pub add_fragments : Dict Fragment → Thing → Result Thing
  add_fragments [] t = ok t
  add_fragments ((name, fragment) ∷ rest) t = do
    u ← add_fragment name fragment t
    add_fragments rest u

  -- `Thing.__init__`
  unfoldable pub new_thing :
      ℕ
      → String
      → String
      → Option String
      → Dict Fragment
      → Dict Fragment
      → Dict Fragment
      → ℕ
      → Result Thing
  unfolding add_fragments
  new_thing ident id title base properties actions events first = do
    t ← add_fragments properties (record {
      ident = ident;
      id = id;
      title = title;
      base = base;
      properties = [];
      actions = [];
      events = [];
      next_ident = first;
    })
    u ← add_fragments actions t
    add_fragments events u
