-- ===== src/Validation/SafeName.antt =====
-- Which names `is_valid_safe_name` of wotpy/wot/validation.py accepts.
use wot_py.Prelude.{
  ℕ, String, List, [], ◌∷◌, ◌++◌, ◌≡◌, ◌⊎◌, inl, inr, ◌↔◌, refl, ap, true, arith, All, Bool-cases,
}
use wot_py.Validation.{codes, is_safe_char, match_rest, match_safe_name, is_valid_safe_name}

abbrev pub AllSafe : List ℕ → Type 0
AllSafe cs = All (λ c. is_safe_char c ≡ true) cs

-- A run of safe characters, or such a run and a newline.
abbrev pub IsSafeTail : List ℕ → Type 0
IsSafeTail cs = (ds : List ℕ) × AllSafe ds × ((cs ≡ ds) ⊎ (cs ≡ ds ++ 10 ∷ []))

IsSafeTail-cons :
    (c : ℕ) (cs : List ℕ) → is_safe_char c ≡ true → IsSafeTail cs → IsSafeTail (c ∷ cs)
IsSafeTail-cons c cs h (ds, safe, e) = (
  c ∷ ds,
  (h, safe),
  elim e [ inl p ↦ inl (ap (λ l. c ∷ l) p) | inr p ↦ inr (ap (λ l. c ∷ l) p) ],
)

match_rest_sound : (cs : List ℕ) → match_rest cs ≡ true → IsSafeTail cs
unfolding match_rest
match_rest_sound [] h = ([], tt, inl refl)
match_rest_sound (c ∷ []) h = elim (Bool-cases (is_safe_char c)) [
  | inl safe ↦ (c ∷ [], (safe, tt), inl refl)
  | inr other ↦ ([], tt, inr (ap (λ x. x ∷ []) (ground arith)))
]
match_rest_sound (c ∷ d ∷ cs) h =
    IsSafeTail-cons c (d ∷ cs) (ground arith) (match_rest_sound (d ∷ cs) (ground arith))

match_rest_safe : (cs : List ℕ) → AllSafe cs → match_rest cs ≡ true
unfolding match_rest
match_rest_safe [] h = refl
match_rest_safe (c ∷ []) h = ground arith
match_rest_safe (c ∷ d ∷ cs) (h, hs) = ground (arith, match_rest_safe (d ∷ cs) hs)

match_rest_newline : (cs : List ℕ) → AllSafe cs → match_rest (cs ++ 10 ∷ []) ≡ true
unfolding match_rest
match_rest_newline [] h = ground arith
match_rest_newline (c ∷ []) h = ground arith
match_rest_newline (c ∷ d ∷ cs) (h, hs) = ground (arith, match_rest_newline (d ∷ cs) hs)

match_rest_complete : (cs : List ℕ) → IsSafeTail cs → match_rest cs ≡ true
match_rest_complete cs (ds, safe, inl e) = rw e (match_rest_safe ds safe)
match_rest_complete cs (ds, safe, inr e) = rw e (match_rest_newline ds safe)

match_safe_name_iff :
    (cs : List ℕ)
    → (match_safe_name cs ≡ true)
      ↔ ((c : ℕ) × (ds : List ℕ) × (is_safe_char c ≡ true) × (cs ≡ c ∷ ds) × IsSafeTail ds)
unfolding match_safe_name
match_safe_name_iff [] = (λ h. cc, λ (c, ds, safe, e, t). cc)
match_safe_name_iff (c ∷ cs) = (
  λ h. (c, cs, ground arith, refl, match_rest_sound cs (ground arith)),
  λ (d, ds, safe, e, t). let done : match_rest ds ≡ true = match_rest_complete ds t in ground arith,
)

-- `is_valid_safe_name` accepts exactly the texts that begin with a letter, a digit, `_` or `-`,
-- go on with such characters only, and may end with one newline after them.
pub is_valid_safe_name_iff :
    (val : String)
    → (is_valid_safe_name val ≡ true)
      ↔ ((c : ℕ) × (ds : List ℕ) × (is_safe_char c ≡ true) × (codes val ≡ c ∷ ds) × IsSafeTail ds)
unfolding is_valid_safe_name
is_valid_safe_name_iff val = match_safe_name_iff (codes val)
