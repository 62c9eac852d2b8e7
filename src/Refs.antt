-- ===== src/Refs.antt =====
-- wotpy/protocols/refs.py: the counter of the references to connections.
pub mod Members
use wot_py.Prelude.{
  String, List, [], ◌∷◌, ◌++◌, Option, none, some, Bool, true, false, not, ◌==◌, if◌then◌else◌,
  Dict, get, put, filter, contains_text,
}

-- `_counter`; each set of references is a list without repetitions.
abbrev pub ConnRefCounter : Type 0
ConnRefCounter = Dict (List String)

-- `set.add`
unfoldable pub add_ref : String → List String → List String
add_ref ref refs = if contains_text ref refs then refs else refs ++ ref ∷ []

unfoldable pub increase : String → String → ConnRefCounter → ConnRefCounter
unfolding add_ref
increase conn_id ref_id c = elim (get conn_id c) [
  | none ↦ put conn_id (add_ref ref_id []) c
  | some refs ↦ put conn_id (add_ref ref_id refs) c
]

-- An unknown connection or reference is only logged.
unfoldable pub decrease : String → String → ConnRefCounter → ConnRefCounter
decrease conn_id ref_id c = elim (get conn_id c) [
  | none ↦ c
  | some refs ↦
      if contains_text ref_id refs then put conn_id (filter (λ r. not (r == ref_id)) refs) c else c
]

abbrev is_empty : List String → Bool
is_empty [] = true
is_empty (_ ∷ _) = false

unfoldable pub has_any : String → ConnRefCounter → Bool
has_any conn_id c = elim (get conn_id c) [ none ↦ false | some refs ↦ not (is_empty refs) ]
