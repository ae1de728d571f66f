-- ===== src/Prelude/Results.antt =====
-- Rust's `Result`, with `?` as bind.
use package.tortue.Prelude.Tests.{if◌then◌else◌}
use mathlib.Core.Bool.{Bool, true, false}
use mathlib.Core.Path.{◌≡◌, refl, ap, ◌∙◌}
use mathlib.Core.Logic.{◌⊎◌, inl, inr}
use mathlib.Core.Option.{Option, none, some}

pub data Result {ℓ κ} (E : Type κ) (A : Type ℓ) : Type (ℓ ⊔ κ) where
  ok : A → Result E A
  err : E → Result E A

infixl 5 ◌>>=◌
abbrev pub ◌>>=◌ {ℓ κ μ} :
    {E : Type μ} {A : Type ℓ} {B : Type κ} → Result E A → (A → Result E B) → Result E B
ok x >>= k = k x
err x >>= k = err x

abbrev pub map_err {ℓ κ μ} :
    {E : Type ℓ} {F : Type κ} {A : Type μ} → (E → F) → Result E A → Result F A
map_err f (ok a) = ok a
map_err f (err e) = err (f e)

abbrev pub ok_or {ℓ κ} : {E : Type κ} {A : Type ℓ} → Option A → E → Result E A
ok_or none e = err e
ok_or (some a) e = ok a

-- `Result::ok`
abbrev pub to_option {ℓ κ} : {E : Type κ} {A : Type ℓ} → Result E A → Option A
to_option (ok a) = some a
to_option (err e) = none

-- Inversion of a successful bind.
pub >>=-eq-ok {ℓ κ μ} :
    {E : Type μ} {A : Type ℓ} {B : Type κ} {y : B} (r : Result E A) (k : A → Result E B)
    → (r >>= k) ≡ ok y
    → (x : A) × (r ≡ ok x) × (k x ≡ ok y)
>>=-eq-ok (err x) k found = cc
>>=-eq-ok (ok x) k found = (x, refl, found)

pub >>=-eq-err {ℓ κ μ} :
    {E : Type μ} {A : Type ℓ} {B : Type κ} {e : E} (r : Result E A) (k : A → Result E B)
    → r ≡ err e
    → (r >>= k) ≡ err e
>>=-eq-err (ok x) k h = cc
>>=-eq-err (err x) k h = cc

pub >>=-of-ok {ℓ κ μ} :
    {E : Type μ} {A : Type ℓ} {B : Type κ} {s : Result E B} (r : Result E A) (x : A)
    (k : A → Result E B)
    → r ≡ ok x
    → k x ≡ s
    → (r >>= k) ≡ s
>>=-of-ok r x k h g = ap (λ t. t >>= k) h ∙ g

pub >>=-congr {ℓ κ μ} :
    {E : Type μ} {A : Type ℓ} {B : Type κ} (r : Result E A) (f g : A → Result E B)
    → ((a : A) → f a ≡ g a)
    → (r >>= f) ≡ (r >>= g)
>>=-congr (ok a) f g h = h a
>>=-congr (err e) f g h = refl

pub ok-injective {ℓ κ} :
    {E : Type κ} {A : Type ℓ} (x y : A) → ◌≡◌ {A = Result E A} (ok x) (ok y) → x ≡ y
ok-injective x y h = cc

pub if-eq-ok {ℓ κ} :
    {E : Type κ} {A : Type ℓ} (b : Bool) (x y : A) (e : E)
    → (if b then ok x else err e) ≡ ok y
    → (b ≡ true) × (x ≡ y)
if-eq-ok true x y e h = (refl, ok-injective x y h)
if-eq-ok false x y e h = cc

pub Result-cases {ℓ κ} :
    {E : Type κ} {A : Type ℓ} (r : Result E A) → ((a : A) × (r ≡ ok a)) ⊎ ((e : E) × (r ≡ err e))
Result-cases (ok a) = inl (a, refl)
Result-cases (err e) = inr (e, refl)

-- A guard that was passed.
pub guard-eq-ok {ℓ κ} :
    {E : Type κ} {A : Type ℓ} (b : Bool) (e : E) (r : Result E A) (y : A)
    → (if b then err e else r) ≡ ok y
    → (b ≡ false) × (r ≡ ok y)
guard-eq-ok true e r y h = cc
guard-eq-ok false e r y h = (refl, h)

pub map_err-eq-ok {ℓ κ μ} :
    {E : Type ℓ} {F : Type κ} {A : Type μ} (g : E → F) (r : Result E A) (a : A)
    → map_err g r ≡ ok a
    → r ≡ ok a
map_err-eq-ok g (ok b) a h = cc
map_err-eq-ok g (err e) a h = cc

-- A call that returns, or panics.
pub data Exit {ℓ} (A : Type ℓ) : Type ℓ where
  done : A → Exit A
  panicked : Exit A

abbrev pub and_then {ℓ κ} : {A : Type ℓ} {B : Type κ} → Exit A → (A → Exit B) → Exit B
and_then (done a) f = f a
and_then panicked f = panicked
