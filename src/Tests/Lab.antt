-- ===== src/Tests/Lab.antt =====
-- A platform, a Thing, a server and a servient for the tests.
use wot_py.Prelude.{
  ℕ, zero, suc, String, List, [], ◌∷◌, Bool, true, false, Option, none, some, ◌==◌, if◌then◌else◌,
  ◌≡◌, refl, sym, ap, ◌∙◌, subst, inl, inr, In, Bool-cases, Dict, ◌+◌, ◌*◌, ◌<◌, ◌≤◌, length, arith,
  ok, values,
}
use wot_py.Platform.{Platform, Protocol, http, websockets, coap, mqtt, Op, absent, FormKey}
use wot_py.Interaction.{Form, Fragment, property_fragment, action_fragment, Interaction, same_op}
use wot_py.Interaction.Forms.{same_op_refl, same_op_sound}
use wot_py.Thing.{Thing, new_thing, interactions}
use wot_py.ThingSet.{Heap}
use wot_py.Server.Forms.{built_ops}
use wot_py.Servient.Regenerate.{Separates}

unfoldable pub index : Op → List Op → ℕ
unfolding same_op
index o [] = 0
index o (p ∷ ps) = let rest = index o ps in if same_op o p then 0 else suc rest

abbrev pub nth : ℕ → List Op → Op
nth n [] = absent
nth zero (p ∷ ps) = p
nth (suc n) (p ∷ ps) = nth n ps

nth-index : (o : Op) (ps : List Op) → In o ps → nth (index o ps) ps ≡ o
unfolding index
nth-index o [] m = absurd m
nth-index o (p ∷ ps) m = elim (Bool-cases (same_op o p)) [
  | inl t ↦ rw t (sym (same_op_sound o p t))
  | inr f ↦ rw f (elim m [
    | inl e ↦ let y : same_op o p ≡ true = subst (λ q. same_op o q ≡ true) e (same_op_refl o) in cc
    | inr r ↦ nth-index o ps r
  ])
]

index-bound : (o : Op) (ps : List Op) → index o ps ≤ length ps
unfolding index
index-bound o [] = omega arith
index-bound o (p ∷ ps) =
    let i = index-bound o ps in
    elim (Bool-cases (same_op o p)) [ inl t ↦ rw t (omega arith) | inr f ↦ rw f (omega (arith, i)) ]

unfoldable pub protocol_code : Protocol → ℕ
protocol_code http = 0
protocol_code websockets = 1
protocol_code coap = 2
protocol_code mqtt = 3

protocol_code-injective : (p q : Protocol) → protocol_code p ≡ protocol_code q → p ≡ q
unfolding protocol_code
protocol_code-injective p q h = ground arith

unfoldable pub lab_slugify : String → String
lab_slugify s = if s == "Temp" then "temp" else if s == "Lab-urn:lab" then "lab-urn-lab" else s

-- A hash that tells the protocols and the operations of the servers apart.
unfoldable pub lab_hash : FormKey → ℕ
unfolding index protocol_code
lab_hash k = protocol_code k.protocol * 16 + index k.op built_ops

abbrev pub lab : Platform
lab = record { slugify = lab_slugify; hash = lab_hash; uuid = λ s. s }

pub lab-Separates : Separates lab
unfolding lab_hash wot_py.Interaction.form_id
lab-Separates f g mf mg e =
    let a : index f.op built_ops ≤ 10 = index-bound f.op built_ops in
    let b : index g.op built_ops ≤ 10 = index-bound g.op built_ops in
    let h : protocol_code f.protocol * 16 + index f.op built_ops
        ≡ protocol_code g.protocol * 16 + index g.op built_ops =
      e in
    let ops : index f.op built_ops ≡ index g.op built_ops = omega (arith, a, b, h) in
    let ps : protocol_code f.protocol ≡ protocol_code g.protocol = omega (arith, a, b, h) in
    (
      protocol_code-injective f.protocol g.protocol ps,
      sym (nth-index f.op built_ops mf)
          ∙ (ap (λ n. nth n built_ops) ops ∙ nth-index g.op built_ops mg),
    )

abbrev pub temp : ℕ → Interaction
temp thing = record {
  ident = 10;
  thing = thing;
  name = "Temp";
  fragment = property_fragment false true;
  forms = [];
}

-- A Thing with one property, whose URL name is not its name.
abbrev pub lab_thing : Thing
lab_thing = record {
  ident = 1;
  id = "urn:lab";
  title = "Lab";
  base = none;
  properties = ("Temp", temp 1) ∷ [];
  actions = [];
  events = [];
  next_ident = 11;
}

pub lab_thing-made :
    new_thing lab 1 "urn:lab" "Lab" none (("Temp", property_fragment false true) ∷ []) [] [] 10
    ≡ ok lab_thing
unfolding new_thing wot_py.Thing.add_fragment wot_py.Interaction.new_interaction
    wot_py.Validation.is_valid_safe_name wot_py.Validation.is_safe_char wot_py.Thing.add_interaction
    wot_py.Thing.find_interaction wot_py.Prelude.next interactions wot_py.Thing.store
    wot_py.Interaction.interaction_type wot_py.Prelude.put
lab_thing-made = refl

abbrev pub lab_heap : Heap
lab_heap r = record lab_thing { ident = r; properties = ("Temp", temp r) ∷ [] }
