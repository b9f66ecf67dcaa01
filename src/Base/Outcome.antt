-- ===== src/Base/Outcome.antt =====
-- What a Rust function returns: a value, an error of its own, or a panic (a failed `unwrap` or
-- `expect`, an index out of bounds).
use mathlib.Core.Path.{◌≡◌, refl}
use mathlib.Core.Option.{Option, none, some}
use mathlib.Core.Bool.{Bool, true, false}

pub data Outcome {ℓ κ} (E : Type ℓ) (A : Type κ) : Type (ℓ ⊔ κ) where
  ok : A → Outcome E A
  err : E → Outcome E A
  panic : Outcome E A

infixl 5 ◌>>=◌
abbrev pub ◌>>=◌ {ℓ κ λ₁} :
    {E : Type ℓ} {A : Type κ} {B : Type λ₁} → Outcome E A → (A → Outcome E B) → Outcome E B
ok a >>= f = f a
err e >>= f = err e
panic >>= f = panic

-- `unwrap` and `expect`.
abbrev pub unwrap {ℓ κ} : {E : Type ℓ} {A : Type κ} → Option A → Outcome E A
unwrap none = panic
unwrap (some a) = ok a

-- `ok_or`.
abbrev pub ok_or {ℓ κ} : {E : Type ℓ} {A : Type κ} → Option A → E → Outcome E A
ok_or none e = err e
ok_or (some a) e = ok a

pub >>=_assoc {ℓ κ κ' κ''} :
    {E : Type ℓ} {A : Type κ} {B : Type κ'} {C : Type κ''} (m : Outcome E A) (f : A → Outcome E B)
    (g : B → Outcome E C)
    → (m >>= f >>= g) ≡ (m >>= (λ a. f a >>= g))
>>=_assoc (ok a) f g = refl
>>=_assoc (err e) f g = refl
>>=_assoc panic f g = refl

-- `if test { return Err(e); }`.
abbrev pub reject {ℓ} : {E : Type ℓ} → Bool → E → Outcome E (Unit {0})
reject true e = err e
reject false e = ok tt

-- What a chain of steps that gives a value went through.
pub bind-ok {ℓ κ κ'} :
    {E : Type ℓ} {A : Type κ} {B : Type κ'} (m : Outcome E A) (f : A → Outcome E B) {b : B}
    → (m >>= f) ≡ ok b
    → (a : A) × (m ≡ ok a) × (f a ≡ ok b)
bind-ok (ok a) f e = (a, refl, e)
bind-ok (err x) f e = absurd (cc)
bind-ok panic f e = absurd (cc)

pub reject-ok {ℓ} : {E : Type ℓ} (t : Bool) (x : E) {u : Unit {0}} → reject t x ≡ ok u → t ≡ false
reject-ok true x e = absurd (cc)
reject-ok false x e = refl

pub ok_or-ok {ℓ κ} :
    {E : Type ℓ} {A : Type κ} (o : Option A) (x : E) {a : A} → ok_or o x ≡ ok a → o ≡ some a
ok_or-ok none x e = absurd (cc)
ok_or-ok (some a) x e = cc

-- A step that is no panic, and a chain of such steps.
abbrev pub Safe {ℓ κ} : {E : Type ℓ} {A : Type κ} → Outcome E A → Type 0
Safe (ok a) = Unit {0}
Safe (err e) = Unit {0}
Safe panic = ⊥

pub bind-Safe {ℓ κ κ'} :
    {E : Type ℓ} {A : Type κ} {B : Type κ'} (m : Outcome E A) (f : A → Outcome E B)
    → Safe m
    → ((a : A) → Safe (f a))
    → Safe (m >>= f)
bind-Safe (ok a) f h k = k a
bind-Safe (err x) f h k = tt
bind-Safe panic f h k = h

pub reject-Safe {ℓ} : {E : Type ℓ} (t : Bool) (x : E) → Safe (reject t x)
reject-Safe true x = tt
reject-Safe false x = tt
