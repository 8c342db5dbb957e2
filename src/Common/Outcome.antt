-- ===== src/Common/Outcome.antt =====
-- `Result<T, E>`: a value or an error, with `?` as the bind.
use oxidarr.Common.{◌≡◌, refl, Option, none, some, List, [], ◌∷◌}

pub data Outcome {ℓ κ} (E : Type ℓ) (A : Type κ) : Type (ℓ ⊔ κ) where
  ok : A → Outcome E A
  err : E → Outcome E A

-- `map_err`, and `ok_or`.
abbrev pub map_err {ℓ κ ι} :
    {E : Type ℓ} {F : Type κ} {A : Type ι} → (E → F) → Outcome E A → Outcome F A
map_err f (ok a) = ok a
map_err f (err e) = err (f e)

abbrev pub ok_or {ℓ κ} : {E : Type ℓ} {A : Type κ} → E → Option A → Outcome E A
ok_or e none = err e
ok_or e (some a) = ok a

-- `?`: an error ends the function with it, and a value goes to what follows.
abbrev pub ◌>>=◌ {ε α β} :
    {X : Type ε} {V : Type α} {W : Type β} → Outcome X V → (V → Outcome X W) → Outcome X W
err problem >>= rest = err problem
ok value >>= rest = rest value

abbrev pub ◌>>◌ {ε α β} :
    {X : Type ε} {V : Type α} {W : Type β} → Outcome X V → Outcome X W → Outcome X W
err problem >> rest = err problem
ok value >> rest = rest

infixl 5 ◌>>=◌ ◌>>◌
-- `iter().map(f).collect::<Result<Vec<_>, _>>()`: the first error, or all the values.
abbrev pub map_all {ℓ κ ι} :
    {E : Type ℓ} {A : Type κ} {B : Type ι} → (A → Outcome E B) → List A → Outcome E (List B)
map_all f [] = ok []
map_all f (x ∷ xs) = f x >>= λ y. map_all f xs >>= λ ys. ok (y ∷ ys)

-- A sequence that gave a value had a first part that gave one.
pub >>=-eq-ok {ε α β} :
    {X : Type ε} {V : Type α} {W : Type β} (first : Outcome X V) (rest : V → Outcome X W) {w : W}
    → (first >>= rest) ≡ ok w
    → (v : V) × (first ≡ ok v) × (rest v ≡ ok w)
>>=-eq-ok (err problem) rest gave = cc
>>=-eq-ok (ok value) rest gave = (value, refl, gave)
