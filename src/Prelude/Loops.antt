-- ===== src/Prelude/Loops.antt =====
-- Statements that change a state and may raise: what was written before the raise stays written,
-- so the state comes back beside the error.
use mathlib.Core.Option.{Option, none, some}
use mathlib.Core.List.{List, [], ◌∷◌}
use wot_py.Prelude.Errors.{Error, Result, ok, err}

abbrev pub Outcome {ℓ} : Type ℓ → Type ℓ
Outcome S = S × Option Error

module _ {ℓ} {S : Type ℓ} where
  -- `r` and then, if it did not raise, `k`
  abbrev pub and_then : Outcome S → (S → Outcome S) → Outcome S
  and_then (s, none) k = k s
  and_then (s, some e) k = (s, some e)

module _ {ℓ κ} {S : Type ℓ} {A : Type κ} where
  -- a call that may raise, in the state `s`, and what is done with its value
  abbrev pub attempt : Result A → S → (A → Outcome S) → Outcome S
  attempt (ok a) s k = k a
  attempt (err e) s k = (s, some e)

  -- `for x in xs: body(x)`
  unfoldable pub for_each : (A → S → Outcome S) → List A → S → Outcome S
  for_each body [] s = (s, none)
  for_each body (x ∷ xs) s = and_then (body x s) (for_each body xs)

module _ {S A : Type 0} where
  -- What every round keeps holds after the loop, also where it raised.
  pub for_each_keeps :
      (P : S → Type 0) (body : A → S → Outcome S)
      → ((x : A) (s : S) → P s → P (body x s).0)
      → (xs : List A) (s : S) → P s
      → P (for_each body xs s).0
  unfolding for_each
  for_each_keeps P body keep [] s h = h
  for_each_keeps P body keep (x ∷ xs) s h =
      after (for_each_keeps P body keep xs) (body x s) (keep x s h)
    where
      after :
          ((u : S) → P u → P (for_each body xs u).0)
          → (r : Outcome S) → P r.0
          → P (and_then r (for_each body xs)).0
      after ih (u, none) k = ih u k
      after ih (u, some e) k = k
