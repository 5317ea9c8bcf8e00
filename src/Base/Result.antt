-- ===== src/Base/Result.antt =====
-- A Python call that returns or raises.
use mathlib.Core.Path.{◌≡◌, refl}
use mathlib.Core.Bool.{Bool, true, false}
use jean_fourche.Base.Tests.{if◌then◌else◌}

pub data Result (E A : Type 0) : Type 0 where
  ok : A → Result E A
  err : E → Result E A

infixl 5 ◌>>=◌
abbrev pub ◌>>=◌ : {E A B : Type 0} → Result E A → (A → Result E B) → Result E B
ok a >>= f = f a
err e >>= f = err e

-- What holds of the value, if the call returns.
abbrev pub Holds : {E A : Type 0} → (A → Type 0) → Result E A → Type 0
Holds P (ok a) = P a
Holds P (err e) = Unit

module _ {E A B : Type 0} (P : B → Type 0) where
  pub Holds-bind :
      (Q : A → Type 0) (m : Result E A) (f : A → Result E B)
      → Holds Q m
      → ((a : A) → Q a → Holds P (f a))
      → Holds P (m >>= f)
  Holds-bind Q (ok a) f q h = h a q
  Holds-bind Q (err e) f q h = tt

  pub Holds-bind_any :
      (m : Result E A) (f : A → Result E B) → ((a : A) → Holds P (f a)) → Holds P (m >>= f)
  Holds-bind_any (ok a) f h = h a
  Holds-bind_any (err e) f h = tt

module _ {E A : Type 0} where
  pub Holds-mono :
      (P Q : A → Type 0) (m : Result E A) → ((a : A) → P a → Q a) → Holds P m → Holds Q m
  Holds-mono P Q (ok a) h p = h a p
  Holds-mono P Q (err e) h p = tt

  pub Holds-if :
      (P : A → Type 0) (b : Bool) (x y : Result E A)
      → (b ≡ true → Holds P x)
      → (b ≡ false → Holds P y)
      → Holds P (if b then x else y)
  Holds-if P true x y f g = f refl
  Holds-if P false x y f g = g refl

  pub Holds-both :
      (P Q : A → Type 0) (m : Result E A) → Holds P m → Holds Q m → Holds (λ a. P a × Q a) m
  Holds-both P Q (ok a) p q = (p, q)
  Holds-both P Q (err e) p q = tt

-- A call whose errors are wrapped.
abbrev pub lift : {E F A : Type 0} → (E → F) → Result E A → Result F A
lift f (ok a) = ok a
lift f (err e) = err (f e)

pub Holds-lift :
    {E F A : Type 0} (P : A → Type 0) (f : E → F) (m : Result E A) → Holds P m → Holds P (lift f m)
Holds-lift P f (ok a) h = h
Holds-lift P f (err e) h = h
