-- ===== src/Base/Result.antt =====
-- A Python call that may raise, with the exceptions that the modelled code raises or meets.
use Prim.Native.Nat.{ℕ}
use mathlib.Core.Path.{◌≡◌, refl}
use mathlib.Core.Logic.{◌⊎◌, inl, inr}
use mathlib.Core.Option.{Option, none, some}
use mathlib.Core.List.{List}

pub data Error : Type 0 where
  key_error value_error type_error attribute_error index_error os_error : Error
  stop_iteration shutdown abort other_error : Error
  -- `hglib.error.CommandError`, with what the command wrote on stderr
  command_error : List ℕ → Error

pub data Result {ℓ} (T : Type ℓ) : Type ℓ where
  ok : T → Result T
  err : Error → Result T

infixl 5 ◌>>=◌ ◌>>◌
abbrev pub ◌>>=◌ {κ ℓ} : {S : Type κ} {T : Type ℓ} → Result S → (S → Result T) → Result T
err e >>= k = err e
ok s >>= k = k s

abbrev pub ◌>>◌ {κ ℓ} : {S : Type κ} {T : Type ℓ} → Result S → Result T → Result T
r >> next = r >>= λ _. next

-- A value that must be there, such as `d[k]`.
abbrev pub require {ℓ} : {A : Type ℓ} → Error → Option A → Result A
require e none = err e
require e (some a) = ok a

pub >>=-eq-ok {κ ℓ} :
    {S : Type κ} {T : Type ℓ} (r : Result S) (k : S → Result T) {t : T}
    → (r >>= k) ≡ ok t
    → (s : S) × (r ≡ ok s) × (k s ≡ ok t)
>>=-eq-ok (err e) k h = cc
>>=-eq-ok (ok s) k h = (s, refl, h)

pub require-eq-ok {ℓ} :
    {A : Type ℓ} (e : Error) (o : Option A) {a : A} → require e o ≡ ok a → o ≡ some a
require-eq-ok e none h = cc
require-eq-ok e (some a) h = cc

pub bind_assoc {ℓ κ μ} :
    {A : Type ℓ} {B : Type κ} {C : Type μ} (m : Result A) (f : A → Result B) (g : B → Result C)
    → (m >>= f >>= g) ≡ (m >>= λ a. f a >>= g)
bind_assoc (ok a) f g = refl
bind_assoc (err e) f g = refl

-- To split on a computed result and keep the equation.
pub Result-cases {ℓ} :
    {A : Type ℓ} (r : Result A) → ((a : A) × (r ≡ ok a)) ⊎ ((e : Error) × (r ≡ err e))
Result-cases (ok a) = inl (a, refl)
Result-cases (err e) = inr (e, refl)
