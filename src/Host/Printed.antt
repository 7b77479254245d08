-- ===== src/Host/Printed.antt =====
-- What the host prints, line by line, beside the result. A line that is printed before an error stays
-- printed.
use jolt_ncp.Base
use jolt_ncp.Base.{
  ◌≡◌, refl, Bool, true, false, if◌then◌else◌, List, [], ◌++◌, Outcome, ok, err, panic,
}
use jolt_ncp.Host.Text.{Text}

abbrev pub Printed : Type 0 → Type 0 → Type 0
Printed E A = List Text × Outcome E A

-- `println!`, once for each line.
abbrev pub println : {E : Type 0} → List Text → Printed E (Unit {0})
println out = (out, ok tt)

abbrev pub quiet : {E A : Type 0} → Outcome E A → Printed E A
quiet m = ([], m)

infixl 5 ◌>>=◌
unfoldable pub ◌>>=◌ : {E A B : Type 0} → Printed E A → (A → Printed E B) → Printed E B
(out, ok a) >>= f = (out ++ (f a).0, (f a).1)
(out, err e) >>= f = (out, err e)
(out, panic) >>= f = (out, panic)

-- The result of a chain is the chain of the results; the lines do not count.
pub result-bind :
    {E A B : Type 0} (p : Printed E A) (f : A → Printed E B)
    → (p >>= f).1 ≡ Base.◌>>=◌ p.1 (λ a. (f a).1)
unfolding ◌>>=◌
result-bind (out, ok a) f = refl
result-bind (out, err e) f = refl
result-bind (out, panic) f = refl

pub result-if :
    {E A : Type 0} (b : Bool) (p q : Printed E A)
    → (if b then p else q).1 ≡ (if b then p.1 else q.1)
result-if true p q = refl
result-if false p q = refl
