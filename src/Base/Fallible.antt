-- ===== src/Base/Fallible.antt =====
-- The result of a Rust function that returns `Result` and may also panic (a failed index, `unwrap`,
-- `expect`, `assert!`, `unreachable!`).
use mathlib.Core.Path.{◌≡◌, refl}
use mathlib.Core.Logic.{◌≢◌, ◌⊎◌, inl, inr}
use mathlib.Core.Option.{Option, none, some}
use mathlib.Core.List.{List, [], ◌∷◌}

pub data Outcome {ℓ} (E : Type ℓ) (A : Type ℓ) : Type ℓ where
  ok : A → Outcome E A
  err : E → Outcome E A
  panic : Outcome E A

infixl 5 ◌>>=◌ ◌>>◌
abbrev pub ◌>>=◌ {ℓ} : {E A B : Type ℓ} → Outcome E A → (A → Outcome E B) → Outcome E B
ok a >>= f = f a
err e >>= f = err e
panic >>= f = panic

abbrev pub ◌>>◌ {ℓ} : {E A B : Type ℓ} → Outcome E A → Outcome E B → Outcome E B
m >> k = m >>= λ _. k

-- `map_err`
abbrev pub map_err {ℓ} : {E F A : Type ℓ} → (E → F) → Outcome E A → Outcome F A
map_err f (ok a) = ok a
map_err f (err e) = err (f e)
map_err f panic = panic

-- `unwrap` and `expect` on a `Result`
abbrev pub unwrap {ℓ} : {E F A : Type ℓ} → Outcome E A → Outcome F A
unwrap (ok a) = ok a
unwrap (err e) = panic
unwrap panic = panic

-- `ok_or`
abbrev pub ok_or {ℓ} : {E A : Type ℓ} → Option A → E → Outcome E A
ok_or (some a) e = ok a
ok_or none e = err e

-- `expect` on an `Option`, and an index that must be in range
abbrev pub expect {ℓ} : {E A : Type ℓ} → Option A → Outcome E A
expect (some a) = ok a
expect none = panic

-- A loop that pushes the results of a fallible body, and `collect::<Result<Vec<_>>>()`.
unfoldable pub traverse {ℓ} : {E A B : Type ℓ} → (A → Outcome E B) → List A → Outcome E (List B)
traverse f [] = ok []
traverse f (x ∷ xs) = do y ← f x; ys ← traverse f xs; ok (y ∷ ys)

-- To split on an outcome and keep the equation.
pub Outcome-cases {ℓ} :
    {E A : Type ℓ} (o : Outcome E A)
    → ((a : A) × (o ≡ ok a)) ⊎ (((e : E) × (o ≡ err e)) ⊎ (o ≡ panic))
Outcome-cases (ok a) = inl (a, refl)
Outcome-cases (err e) = inr (inl (e, refl))
Outcome-cases panic = inr (inr refl)

-- A loop over bodies that never fail never fails.
pub traverse-error {ℓ} :
    {E A B : Type ℓ} (f : A → Outcome E B) (xs : List A) (e : E)
    → ((x : A) (e' : E) → f x ≢ err e')
    → traverse f xs ≢ err e
unfolding traverse
traverse-error f [] e h failed = cc
traverse-error f (x ∷ xs) e h failed = elim (Outcome-cases (f x)) [
  | inl (y, fine) ↦ elim (Outcome-cases (traverse f xs)) [
    | inl (ys, fine') ↦ cc
    | inr (inl (e', failed')) ↦ traverse-error f xs e' h failed'
    | inr (inr stuck) ↦ cc
  ]
  | inr (inl (e', failed')) ↦ h x e' failed'
  | inr (inr stuck) ↦ cc
]

-- What an outcome holds, where it is `ok`.
abbrev pub OnOk {ℓ κ} : {E A : Type ℓ} → (A → Type κ) → Outcome E A → Type κ
OnOk P (ok a) = P a
OnOk P (err e) = Unit
OnOk P panic = Unit

pub bind_assoc {ℓ} :
    {E A B C : Type ℓ} (m : Outcome E A) (f : A → Outcome E B) (k : B → Outcome E C)
    → m >>= f >>= k ≡ (m >>= λ a. f a >>= k)
bind_assoc (ok a) f k = refl
bind_assoc (err e) f k = refl
bind_assoc panic f k = refl
