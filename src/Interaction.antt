-- ===== src/Interaction.antt =====
-- wotpy/wot/interaction.py and wotpy/wot/form.py: interaction patterns and their forms.
-- An object's identity, which `is` and the default hash read, is a number.
pub mod Forms
use wot_py.Prelude.{
  ℕ, String, List, [], ◌∷◌, ◌++◌, Bool, true, false, not, ◌&&◌, ◌==◌, ◌is◌, if◌then◌else◌, Error,
  value_error, attribute_error, assertion_error, Result, ok, err, ◌>>=◌, ◌>>◌, require, contains,
}
use wot_py.Platform.{
  Platform, FormKey, Protocol, http, websockets, coap, mqtt, Op, absent, single, several,
}
use wot_py.Validation.{is_valid_safe_name}

-- InteractionTypes of wotpy/wot/enums.py
pub data Kind : Type 0 where
  property action event : Kind

-- The init dict of an interaction, as far as the program branches on it.
pub data Fragment : Type 0 where
  property_fragment : Bool → Bool → Fragment
  action_fragment event_fragment : Fragment

pub record Form : Type 0 where
  pub interaction : ℕ
  pub protocol : Protocol
  pub href : String
  pub content_type : String
  pub op : Op

pub record Interaction : Type 0 where
  pub ident : ℕ
  pub thing : ℕ
  pub name : String
  pub fragment : Fragment
  pub forms : List Form

-- The class of an interaction goes with the class of its init dict.
unfoldable pub interaction_type : Interaction → Kind
interaction_type i = elim i.fragment [
  | property_fragment _ _ ↦ property
  | action_fragment ↦ action
  | event_fragment ↦ event
]

-- `interaction.writable`, through `__getattr__`: `not data_schema.read_only`
unfoldable pub writable : Interaction → Result Bool
writable i = elim i.fragment [
  | property_fragment read_only shown ↦ ok (not read_only)
  | _ ↦ err attribute_error
]

-- `interaction.observable`, through `__getattr__`
unfoldable pub observable : Interaction → Result Bool
observable i = elim i.fragment [
  | property_fragment read_only shown ↦ ok shown
  | _ ↦ err attribute_error
]

-- `InteractionPattern.__init__`
unfoldable pub new_interaction : ℕ → ℕ → String → Fragment → Result Interaction
new_interaction ident thing name fragment =
    if is_valid_safe_name name
    then ok (record { ident = ident; thing = thing; name = name; fragment = fragment; forms = [] })
    else err value_error

unfoldable pub clean_forms : Interaction → Interaction
clean_forms i = record i { forms = [] }

unfoldable pub same_protocol : Protocol → Protocol → Bool
same_protocol http http = true
same_protocol websockets websockets = true
same_protocol coap coap = true
same_protocol mqtt mqtt = true
same_protocol _ _ = false

unfoldable pub same_texts : List String → List String → Bool
same_texts [] [] = true
same_texts (x ∷ xs) (y ∷ ys) = x == y && same_texts xs ys
same_texts _ _ = false

unfoldable pub same_op : Op → Op → Bool
unfolding same_texts
same_op absent absent = true
same_op (single x) (single y) = x == y
same_op (several xs) (several ys) = same_texts xs ys
same_op _ _ = false

-- `list.index` compares form objects. Forms are values here; two forms with the same fields have
-- the same id, and `add_form` keeps such twins out of an interaction.
unfoldable pub same_form : Form → Form → Bool
unfolding same_protocol same_op
same_form f g =
    f.interaction is g.interaction
    && same_protocol f.protocol g.protocol
    && f.href == g.href
    && f.content_type == g.content_type
    && same_op f.op g.op

unfoldable pub remove_first : Form → List Form → List Form
remove_first f [] = []
remove_first f (g ∷ gs) = if same_form f g then gs else g ∷ remove_first f gs

unfoldable pub remove_form : Form → Interaction → Interaction
unfolding remove_first
remove_form f i = record i { forms = remove_first f i.forms }

module _ (env : Platform) where
  unfoldable pub url_name : Interaction → String
  url_name i = env.slugify i.name

  unfoldable pub form_id : Form → ℕ
  form_id f =
      env.hash
        (record { protocol = f.protocol; href = f.href; content_type = f.content_type; op = f.op })

  unfoldable pub add_form : Form → Interaction → Result Interaction
  add_form f i = do
    require (f.interaction is i.ident) assertion_error
    require (not (contains (λ g. form_id g is form_id f) i.forms)) value_error
    ok (record i { forms = i.forms ++ f ∷ [] })
