-- ===== src/Prelude/Results.antt =====
-- Rust's `Result<A, E>`, with `?` as the bind of a do block.
use mathlib.Core.Path.{◌≡◌, refl, ap}
use mathlib.Core.Logic.{◌⊎◌, inl, inr}
use mathlib.Core.List.{List, [], ◌∷◌}
use mathlib.Core.Option.{Option, none, some}

pub data Result {ℓ κ} (E : Type ℓ) (A : Type κ) : Type (ℓ ⊔ κ) where
  ok : A → Result E A
  err : E → Result E A

-- `Result::and_then`: an error passes through.
abbrev pub and_then {ℓ κ μ} :
    {E : Type ℓ} {A : Type κ} {B : Type μ} → (A → Result E B) → Result E A → Result E B
and_then next (ok value) = next value
and_then next (err fault) = err fault

module _ {ℓ κ μ} {E : Type ℓ} {A : Type κ} {B : Type μ} where
  infixl 5 ◌>>=◌
  abbrev pub ◌>>=◌ : Result E A → (A → Result E B) → Result E B
  action >>= next = and_then next action

  -- A chain succeeds only if each of its parts does.
  pub >>=-eq-ok :
      (action : Result E A) (next : A → Result E B) {out : B}
      → action >>= next ≡ ok out
      → (mid : A) × (action ≡ ok mid) × (next mid ≡ ok out)
  >>=-eq-ok (err fault) next p = cc
  >>=-eq-ok (ok value) next p = (value, refl, p)

infixl 5 ◌>>◌
abbrev pub ◌>>◌ {ℓ μ} : {E : Type ℓ} {B : Type μ} → Result E (Unit {0}) → Result E B → Result E B
check >> rest = and_then (λ u. rest) check

module _ {ℓ κ} {E : Type ℓ} {A : Type κ} where
  abbrev pub ok_or : E → Option A → Result E A
  ok_or e none = err e
  ok_or e (some a) = ok a

  pub Result-cases : (r : Result E A) → ((a : A) × (r ≡ ok a)) ⊎ ((e : E) × (r ≡ err e))
  Result-cases (ok a) = inl (a, refl)
  Result-cases (err e) = inr (e, refl)

-- `map_err`
abbrev pub map_err {ℓ κ μ} :
    {E : Type ℓ} {F : Type κ} {A : Type μ} → (E → F) → Result E A → Result F A
map_err f (ok a) = ok a
map_err f (err e) = err (f e)

-- `iter().map(f).collect::<Result<Vec<_>, _>>()`: the first error stops the walk.
abbrev pub traverse {ℓ κ μ} :
    {E : Type ℓ} {A : Type κ} {B : Type μ} → (A → Result E B) → List A → Result E (List B)
traverse f [] = ok []
traverse f (x ∷ xs) = f x >>= λ y. traverse f xs >>= λ ys. ok (y ∷ ys)

pub ok_inj {ℓ κ} : {E : Type ℓ} {A : Type κ} {a b : A} → ◌≡◌ {A = Result E A} (ok a) (ok b) → a ≡ b
ok_inj e = cc

pub err-ne-ok {ℓ κ} :
    {E : Type ℓ} {A : Type κ} {e : E} {a : A} → ◌≡◌ {A = Result E A} (err e) (ok a) → ⊥
err-ne-ok p = cc

pub ok_or-eq-ok {ℓ κ} :
    {E : Type ℓ} {A : Type κ} (e : E) (o : Option A) (a : A) → ok_or e o ≡ ok a → o ≡ some a
ok_or-eq-ok e none a h = cc
ok_or-eq-ok e (some b) a h = ap some (ok_inj h)

pub map_err-eq-ok {ℓ κ μ} :
    {E : Type ℓ} {F : Type κ} {A : Type μ} (f : E → F) (r : Result E A) (a : A)
    → map_err f r ≡ ok a
    → r ≡ ok a
map_err-eq-ok f (ok b) a h = ap ok (ok_inj h)
map_err-eq-ok f (err e) a h = cc
