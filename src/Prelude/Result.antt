-- ===== src/Prelude/Result.antt =====
-- Fallible code: a result or an error, and what holds of the result where there is one. A database
-- transaction is such a result over the tables: an error rolls every write back.
use mathlib.Core.Path.{◌≡◌, refl}
use mathlib.Core.Bool.{Bool, true, false}
use mathlib.Core.Option.{Option, none, some}
use scholight.Prelude.Tests.{if◌then◌else◌}

pub data Result {ℓ} (E : Type 0) (A : Type ℓ) : Type ℓ where
  ok : A → Result E A
  err : E → Result E A

infixl 5 ◌>>=◌ ◌>>◌
unfoldable pub ◌>>=◌ {ℓ κ} :
    {E : Type 0} {A : Type ℓ} {B : Type κ} → Result E A → (A → Result E B) → Result E B
ok a >>= k = k a
err e >>= k = err e

unfoldable pub ◌>>◌ {ℓ} : {E : Type 0} {B : Type ℓ} → Result E (Unit {0}) → Result E B → Result E B
ok u >> k = k
err e >> k = err e

-- `if not b: raise e`
unfoldable pub require : {E : Type 0} → Bool → E → Result E (Unit {0})
require true e = ok tt
require false e = err e

-- `if o is None: raise e`
unfoldable pub or_raise {ℓ} : {E : Type 0} {A : Type ℓ} → Option A → E → Result E A
or_raise none e = err e
or_raise (some a) e = ok a

-- What holds of the result, if there is one.
abbrev pub Ensures {ℓ κ} : {E : Type 0} {A : Type ℓ} → (A → Type κ) → Result E A → Type κ
Ensures P (ok a) = P a
Ensures P (err e) = Unit

module _ {ℓ κ} {E : Type 0} {B : Type ℓ} (P : B → Type κ) where
  pub Ensures-require :
      (b : Bool) (e : E) (k : Result E B) → (b ≡ true → Ensures P k) → Ensures P (require b e >> k)
  unfolding ◌>>◌ require
  Ensures-require true e k h = h refl
  Ensures-require false e k h = tt

  -- What follows checks that may raise.
  pub Ensures-after : (m : Result E (Unit {0})) (k : Result E B) → Ensures P k → Ensures P (m >> k)
  unfolding ◌>>◌
  Ensures-after (ok u) k h = h
  Ensures-after (err e) k h = tt

  pub Ensures-if :
      (b : Bool) (x y : Result E B)
      → (b ≡ true → Ensures P x)
      → (b ≡ false → Ensures P y)
      → Ensures P (if b then x else y)
  Ensures-if true x y h k = h refl
  Ensures-if false x y h k = k refl

module _ {ℓ κ μ} {E : Type 0} {A : Type ℓ} {B : Type κ} (P : B → Type μ) where
  pub Ensures-or_raise :
      (o : Option A) (e : E) (k : A → Result E B)
      → ((a : A) → o ≡ some a → Ensures P (k a))
      → Ensures P (or_raise o e >>= k)
  unfolding ◌>>=◌ or_raise
  Ensures-or_raise none e k h = tt
  Ensures-or_raise (some a) e k h = h a refl

  pub Ensures-bind :
      (m : Result E A) (k : A → Result E B)
      → ((a : A) → m ≡ ok a → Ensures P (k a))
      → Ensures P (m >>= k)
  unfolding ◌>>=◌
  Ensures-bind (ok a) k h = h a refl
  Ensures-bind (err e) k h = tt

pub if_either {ℓ κ} :
    {A : Type ℓ} (P : A → Type κ) (b : Bool) (x y : A) → P x → P y → P (if b then x else y)
if_either P true x y h k = h
if_either P false x y h k = k

pub if_cases {ℓ κ} :
    {A : Type ℓ} (P : A → Type κ) (b : Bool) (x y : A)
    → (b ≡ true → P x)
    → (b ≡ false → P y)
    → P (if b then x else y)
if_cases P true x y h k = h refl
if_cases P false x y h k = k refl

pub Ensures-mono {ℓ κ μ} :
    {E : Type 0} {A : Type ℓ} (P : A → Type κ) (Q : A → Type μ) (r : Result E A)
    → ((a : A) → P a → Q a)
    → Ensures P r
    → Ensures Q r
Ensures-mono P Q (ok a) h k = h a k
Ensures-mono P Q (err e) h k = tt

-- What a result that was returned has.
pub Ensures-at {ℓ κ} :
    {E : Type 0} {A : Type ℓ} (P : A → Type κ) (r : Result E A) {a : A}
    → Ensures P r
    → r ≡ ok a
    → P a
Ensures-at P (ok b) {a} h e = let f : b ≡ a = cc in rw (f) at h
Ensures-at P (err b) h e = cc

-- A transaction that raises leaves the tables as they were.
abbrev pub committed {ℓ κ} : {E : Type 0} {A : Type ℓ} {S : Type κ} → S → Result E (A × S) → S
committed s (ok (a, t)) = t
committed s (err e) = s
