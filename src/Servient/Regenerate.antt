-- ===== src/Servient/Regenerate.antt =====
-- Regenerating the forms of one interaction and of one Thing: `_clean_protocol_forms` and
-- `_add_interaction_forms` of wotpy/wot/servient.py.
pub mod Things
pub mod Server
pub mod Heap
use mathlib.Core.List.{append-nil, append_assoc}
use wot_py.Prelude.{
  ℕ, String, List, [], ◌∷◌, ◌++◌, Option, none, some, Bool, true, false, not, ◌≡◌, ◌≢◌, ◌⊎◌, inl,
  inr, refl, sym, ap, ◌∙◌, arith, All, All-In, All-append, All-filter, In, In-filter, filter, Dict,
  values, Outcome, and_then, ok, err, Bool-cases, if◌then◌else◌,
}
use wot_py.Platform.{Platform, Protocol, Op}
use wot_py.Interaction.{Form, Interaction, form_id, same_op, remove_form, remove_first, add_form}
use wot_py.Interaction.Forms.{
  of_protocol, remove_all, remove_all-filter, add_form_iff, same_op_refl, same_protocol_sound,
  same_protocol_refl, AreApart,
}
use wot_py.Thing.{Thing, interactions}
use wot_py.Server.Forms.{built_ops, HaveOtherOps, IsBuilt, AreBuilt}
use wot_py.Servient.{
  remove_forms, clean_protocol, add_forms, over_dict, over_interactions, next_item, no_error,
}

remove_forms_lem :
    (fs : List Form) (i : Interaction)
    → remove_forms fs i ≡ record i { forms = remove_all fs i.forms }
unfolding remove_forms remove_all remove_form
remove_forms_lem [] i = refl
remove_forms_lem (f ∷ fs) i = remove_forms_lem fs (remove_form f i)

abbrev pub others : Protocol → List Form → List Form
others p fs = filter (λ f. not (of_protocol p f)) fs

pub clean_protocol_lem :
    (p : Protocol) (i : Interaction) → clean_protocol p i ≡ record i { forms = others p i.forms }
unfolding clean_protocol
clean_protocol_lem p i =
    remove_forms_lem (filter (of_protocol p) i.forms) i
    ∙ ap (λ fs. record i { forms = fs }) (remove_all-filter p i.forms)

module _ (env : Platform) where
  -- Two forms that servers may build have the same id only if they agree on protocol and
  -- operation: what the built-in hash of a tuple of texts gives, short of a collision.
  abbrev pub Separates : Type 0
  Separates =
      (f g : Form)
      → In f.op built_ops
      → In g.op built_ops
      → form_id env f ≡ form_id env g
      → (f.protocol ≡ g.protocol) × (f.op ≡ g.op)

  -- The forms of an interaction are its own, and have operations that servers write.
  abbrev pub IsReady : Interaction → Type 0
  IsReady i = All (λ f. (f.interaction ≡ i.ident) × In f.op built_ops) i.forms

  add_forms_lem :
      (fs : List Form) (i : Interaction)
      → All (λ f. f.interaction ≡ i.ident) fs
      → All (λ f. All (λ g. form_id env g ≢ form_id env f) i.forms) fs
      → AreApart env fs
      → add_forms env fs i ≡ no_error (record i { forms = i.forms ++ fs })
  unfolding add_forms
  add_forms_lem [] i own new apart = rw (append-nil i.forms)
  add_forms_lem (f ∷ fs) i (o, own) (n, new) (a, apart) =
      let j : Interaction = record i { forms = i.forms ++ f ∷ [] } in
      let added : add_form env f i ≡ ok j = (add_form_iff env f i j).1 (o, n, refl) in
      rw added (
        add_forms_lem fs j own (still_new fs new a) apart
        ∙ ap (λ l. no_error (record i { forms = l })) (append_assoc i.forms (f ∷ []) fs))
    where
      still_new :
          (gs : List Form)
          → All (λ g. All (λ h. form_id env h ≢ form_id env g) i.forms) gs
          → All (λ g. form_id env f ≢ form_id env g) gs
          → All (λ g. All (λ h. form_id env h ≢ form_id env g) (i.forms ++ f ∷ [])) gs
      still_new [] x y = tt
      still_new (g ∷ gs) (x, xs) (y, ys) = (
        All-append (λ h. form_id env h ≢ form_id env g) i.forms (f ∷ []) x (y, tt),
        still_new gs xs ys,
      )
