-- ===== src/Prelude/Errors.antt =====
-- The exceptions that the program raises, as values. Messages are left out: no branch reads them.
use mathlib.Core.Path.{◌≡◌, refl}
use mathlib.Core.Bool.{Bool, true, false}
use mathlib.Core.Option.{Option, none, some}

pub data Error : Type 0 where
  value_error type_error key_error index_error attribute_error assertion_error : Error
  not_implemented servient_state validation websocket_message : Error
  client_request_timeout form_not_found remote_error : Error

-- What a call returns or raises.
pub data Result {ℓ} (V : Type ℓ) : Type ℓ where
  err : Error → Result V
  ok : V → Result V

-- `d[k]`, or what `next(...)` gives, with the error for a missing item
abbrev pub or_raise {ℓ} : {V : Type ℓ} → Option V → Error → Result V
or_raise none x = err x
or_raise (some v) x = ok v

-- `if not test: raise x`
abbrev pub require : Bool → Error → Result (Unit {0})
require test x = elim test [ true ↦ ok tt | false ↦ err x ]

-- The rest of a block runs on the value of the first call, and not after a raise.
infixl 5 ◌>>=◌ ◌>>◌
abbrev pub ◌>>=◌ {ℓ κ} : {V : Type ℓ} {W : Type κ} → Result V → (V → Result W) → Result W
err x >>= rest = err x
ok v >>= rest = rest v

abbrev pub ◌>>◌ {ℓ} : {W : Type ℓ} → Result (Unit {0}) → Result W → Result W
call >> rest = call >>= λ done. rest

-- A block that returned went through its first call.
pub >>=-eq-ok {ℓ κ} :
    {V : Type ℓ} {W : Type κ} (call : Result V) (rest : V → Result W) {w : W}
    → (call >>= rest) ≡ ok w
    → (v : V) × (call ≡ ok v) × (rest v ≡ ok w)
>>=-eq-ok (err x) rest e = cc
>>=-eq-ok (ok v) rest e = (v, refl, e)

pub ok-injective {ℓ} : {V : Type ℓ} {v w : V} → ok v ≡ ok w → v ≡ w
ok-injective e = cc
