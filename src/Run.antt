-- ===== src/Run.antt =====
-- How a function of the program ends, and the chains of calls of such functions.
use mathlib.Core.Path.{subst}
use galaxie.Prelude.{◌≡◌, ◌≢◌, refl, sym, ap, ◌∙◌}

-- `exited` is a call of `exit`, `aborted` a failed `assert`, and `undefined` what C leaves undefined, such
-- as a read outside a buffer. `stuck` is no end of a C function: the model's fuel ran out.
pub data Run {ℓ} (A : Type ℓ) : Type ℓ where
  ok : A → Run A
  exited : Run A
  aborted : Run A
  undefined : Run A
  stuck : Run A

-- A call, and what follows it if it returns.
abbrev pub ◌>>=◌ {ℓ κ} : {A : Type ℓ} {B : Type κ} → Run A → (A → Run B) → Run B
exited >>= after = exited
aborted >>= after = aborted
undefined >>= after = undefined
stuck >>= after = stuck
ok a >>= after = after a

infixl 5 ◌>>=◌
-- Three calls in a row.
pub >>=_assoc {ℓ κ μ} :
    {A : Type ℓ} {B : Type κ} {D : Type μ} (call : Run A) (second : A → Run B) (third : B → Run D)
    → ((call >>= second) >>= third) ≡ (call >>= λ a. second a >>= third)
>>=_assoc exited second third = refl
>>=_assoc aborted second third = refl
>>=_assoc undefined second third = refl
>>=_assoc stuck second third = refl
>>=_assoc (ok a) second third = refl

pub >>=_ok {ℓ} : {A : Type ℓ} (m : Run A) → (m >>= λ a. ok a) ≡ m
>>=_ok exited = refl
>>=_ok aborted = refl
>>=_ok undefined = refl
>>=_ok stuck = refl
>>=_ok (ok a) = refl

-- Two calls of which the result is known, and what follows.
pub >>=_then {ℓ κ μ} :
    {A : Type ℓ} {B : Type κ} {D : Type μ} (call : Run A) (second : A → Run B) (third : B → Run D)
    {b : B}
    → (call >>= second) ≡ ok b
    → (call >>= λ a. second a >>= third) ≡ third b
>>=_then call second third h = sym (>>=_assoc call second third) ∙ ap (λ m. m >>= third) h

-- Two continuations that agree on what a call returns.
pub >>=_cong {ℓ κ} :
    {A : Type ℓ} {B : Type κ} (m : Run A) {f g : A → Run B}
    → ((a : A) → m ≡ ok a → f a ≡ g a)
    → (m >>= f) ≡ (m >>= g)
>>=_cong (ok a) h = h a refl
>>=_cong exited h = refl
>>=_cong aborted h = refl
>>=_cong undefined h = refl
>>=_cong stuck h = refl

-- A chain that returns, taken apart.
pub >>=-eq-ok {ℓ κ} :
    {A : Type ℓ} {B : Type κ} {b : B} (call : Run A) (after : A → Run B)
    → (call >>= after) ≡ ok b
    → (a : A) × (call ≡ ok a) × (after a ≡ ok b)
>>=-eq-ok exited after e = cc
>>=-eq-ok aborted after e = cc
>>=-eq-ok undefined after e = cc
>>=-eq-ok stuck after e = cc
>>=-eq-ok (ok a) after e = (a, refl, e)

pub >>=-ne-stuck {ℓ κ} :
    {A : Type ℓ} {B : Type κ} (m : Run A) (f : A → Run B)
    → m ≢ stuck
    → ((a : A) → f a ≢ stuck)
    → (m >>= f) ≢ stuck
>>=-ne-stuck (ok a) f hm hf = hf a
>>=-ne-stuck exited f hm hf = λ x. cc
>>=-ne-stuck aborted f hm hf = λ x. cc
>>=-ne-stuck undefined f hm hf = λ x. cc
>>=-ne-stuck stuck f hm hf = λ x. hm refl

-- What holds of a result, if there is one.
abbrev pub Returns {ℓ κ} : {A : Type ℓ} → (A → Type κ) → Run A → Type κ
Returns P (ok a) = P a
Returns P exited = Unit
Returns P aborted = Unit
Returns P undefined = Unit
Returns P stuck = Unit

pub >>=-Returns {ℓ κ μ} :
    {A : Type ℓ} {B : Type κ} (P : B → Type μ) (m : Run A) (f : A → Run B)
    → ((a : A) → m ≡ ok a → Returns P (f a))
    → Returns P (m >>= f)
>>=-Returns P (ok a) f h = h a refl
>>=-Returns P exited f h = tt
>>=-Returns P aborted f h = tt
>>=-Returns P undefined f h = tt
>>=-Returns P stuck f h = tt

pub Returns-ok {ℓ κ} :
    {A : Type ℓ} (P : A → Type κ) (m : Run A) {a : A} → Returns P m → m ≡ ok a → P a
Returns-ok P m h e = subst (Returns P) e h

pub Returns-map {ℓ κ μ} :
    {A : Type ℓ} (P : A → Type κ) (Q : A → Type μ) (m : Run A)
    → Returns P m
    → ((a : A) → P a → Q a)
    → Returns Q m
Returns-map P Q (ok a) h f = f a h
Returns-map P Q exited h f = tt
Returns-map P Q aborted h f = tt
Returns-map P Q undefined h f = tt
Returns-map P Q stuck h f = tt
