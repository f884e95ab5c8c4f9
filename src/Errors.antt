-- ===== src/Errors.antt =====
-- errors.h: the engine's exception class, and the outcome of a C++ call.
use vector_engine.Common.{◌⊎◌, inl, inr, subst, ◌≡◌, ◌≢◌, refl, Option, none, some, Bytes, arith}

-- `class Error`; `what()` is the stored message.
pub record Error : Type 0 where
  pub msg : Bytes

abbrev pub what : Error → Bytes
what e = e.msg

-- `engine` is an exception that `catch (const Error &)` catches; `standard` is one of the
-- standard library (std::length_error, std::bad_alloc), which no handler of the engine catches.
pub data Exception : Type 0 where
  engine : Error → Exception
  standard : Exception

-- `undefined` is a failed `assert` or an access outside of an object; `diverges` says that the
-- fuel of a loop ran out.
pub data Outcome {ℓ} (A : Type ℓ) : Type ℓ where
  ok : A → Outcome A
  throws : Exception → Outcome A
  undefined : Outcome A
  diverges : Outcome A

infixl 5 ◌>>=◌
abbrev pub ◌>>=◌ {ℓ κ} : {A : Type ℓ} {B : Type κ} → Outcome A → (A → Outcome B) → Outcome B
ok a >>= f = f a
throws e >>= f = throws e
undefined >>= f = undefined
diverges >>= f = diverges

-- A call that returns or throws an `Error`, which the handlers of the engine catch.
abbrev pub IsTame {ℓ} : {A : Type ℓ} → Outcome A → Type 0
IsTame (ok a) = Unit
IsTame (throws (engine e)) = Unit
IsTame (throws standard) = ⊥
IsTame undefined = ⊥
IsTame diverges = ⊥

-- A call that returns std::nullopt makes its caller return std::nullopt.
infixl 5 ◌>>?◌
abbrev pub ◌>>?◌ {ℓ κ} :
    {A : Type ℓ} {B : Type κ} → Outcome (Option A) → (A → Outcome (Option B)) → Outcome (Option B)
ok none >>? f = ok none
ok (some a) >>? f = f a
throws e >>? f = throws e
undefined >>? f = undefined
diverges >>? f = diverges

-- A round of a loop that goes on with the value of a call, or breaks with `stop` at std::nullopt.
abbrev pub or_break {ℓ κ} :
    {A : Type ℓ} {B : Type κ} → Outcome B → (A → Outcome B) → Option A → Outcome B
or_break stop go none = stop
or_break stop go (some a) = go a

-- What a call returns, if it returns.
abbrev pub Ensures {ℓ κ} : {A : Type ℓ} → (A → Type κ) → Outcome A → Type κ
Ensures P (ok a) = P a
Ensures P (throws e) = Unit
Ensures P undefined = Unit
Ensures P diverges = Unit

pub Ensures-bind {ℓ κ μ ν} :
    {A : Type ℓ} {B : Type κ} (P : A → Type μ) (Q : B → Type ν) (m : Outcome A) (f : A → Outcome B)
    → Ensures P m
    → ((a : A) → P a → Ensures Q (f a))
    → Ensures Q (m >>= f)
Ensures-bind P Q (ok a) f h next = next a h
Ensures-bind P Q (throws e) f h next = tt
Ensures-bind P Q undefined f h next = tt
Ensures-bind P Q diverges f h next = tt

-- A call about which nothing is said.
pub Ensures-then {ℓ κ ν} :
    {A : Type ℓ} {B : Type κ} (Q : B → Type ν) (m : Outcome A) (f : A → Outcome B)
    → ((a : A) → Ensures Q (f a))
    → Ensures Q (m >>= f)
Ensures-then Q (ok a) f next = next a
Ensures-then Q (throws e) f next = tt
Ensures-then Q undefined f next = tt
Ensures-then Q diverges f next = tt

pub Ensures-ok {ℓ κ} :
    {A : Type ℓ} (P : A → Type κ) {m : Outcome A} {a : A} → m ≡ ok a → Ensures P m → P a
Ensures-ok P e h = subst (Ensures P) e h

-- A chain of calls that are tame unless `D` holds.
pub TameOr-bind {ℓ κ ν} :
    {A : Type ℓ} {B : Type κ} (D : Type ν) (m : Outcome A) (f : A → Outcome B)
    → IsTame m ⊎ D
    → ((a : A) → m ≡ ok a → IsTame (f a) ⊎ D)
    → IsTame (m >>= f) ⊎ D
TameOr-bind D m f (inr d) next = inr d
TameOr-bind D (ok a) f (inl t) next = next a refl
TameOr-bind D (throws (engine e)) f (inl t) next = inl tt
TameOr-bind D (throws standard) f (inl t) next = absurd t
TameOr-bind D undefined f (inl t) next = absurd t
TameOr-bind D diverges f (inl t) next = absurd t

pub TameOr-next {ℓ κ ν} :
    {A : Type ℓ} {B : Type κ} (D : Type ν) (m : Outcome (Option A)) (f : A → Outcome (Option B))
    → IsTame m ⊎ D
    → ((a : A) → m ≡ ok (some a) → IsTame (f a) ⊎ D)
    → IsTame (m >>? f) ⊎ D
TameOr-next D m f (inr d) next = inr d
TameOr-next D (ok none) f (inl t) next = inl tt
TameOr-next D (ok (some a)) f (inl t) next = next a refl
TameOr-next D (throws (engine e)) f (inl t) next = inl tt
TameOr-next D (throws standard) f (inl t) next = absurd t
TameOr-next D undefined f (inl t) next = absurd t
TameOr-next D diverges f (inl t) next = absurd t

pub ok-injective {ℓ} : {A : Type ℓ} {a a' : A} → ◌≡◌ {A = Outcome A} (ok a) (ok a') → a ≡ a'
ok-injective h = cc

pub ok_pair-injective {ℓ κ} :
    {A : Type ℓ} {B : Type κ} {a a' : A} {b b' : B}
    → ◌≡◌ {A = Outcome (A × B)} (ok (a, b)) (ok (a', b'))
    → (a ≡ a') × (b ≡ b')
ok_pair-injective h = (ground arith, ground arith)

-- Inversion of a bind that succeeds.
pub >>=-eq-ok {ℓ κ} :
    {A : Type ℓ} {B : Type κ} (first : Outcome A) (next : A → Outcome B) {y : B}
    → (first >>= next) ≡ ok y
    → (x : A) × (first ≡ ok x) × (next x ≡ ok y)
>>=-eq-ok (throws e) next done = cc
>>=-eq-ok undefined next done = cc
>>=-eq-ok diverges next done = cc
>>=-eq-ok (ok x) next done = (x, refl, done)

pub >>?-eq-some {ℓ κ} :
    {A : Type ℓ} {B : Type κ} (m : Outcome (Option A)) (f : A → Outcome (Option B)) {b : B}
    → (m >>? f) ≡ ok (some b)
    → (a : A) × (m ≡ ok (some a)) × (f a ≡ ok (some b))
>>?-eq-some (ok none) f h = cc
>>?-eq-some (ok (some a)) f h = (a, refl, h)
>>?-eq-some (throws e) f h = cc
>>?-eq-some undefined f h = cc
>>?-eq-some diverges f h = cc

pub >>?-eq-undefined {ℓ κ} :
    {A : Type ℓ} {B : Type κ} (m : Outcome (Option A)) (f : A → Outcome (Option B))
    → IsTame m
    → (m >>? f) ≡ undefined
    → (a : A) × (m ≡ ok (some a)) × (f a ≡ undefined)
>>?-eq-undefined (ok none) f t h = cc
>>?-eq-undefined (ok (some a)) f t h = (a, refl, h)
>>?-eq-undefined (throws e) f t h = cc
>>?-eq-undefined undefined f t h = absurd t
>>?-eq-undefined diverges f t h = absurd t

pub >>=_congr {ℓ κ} :
    {A : Type ℓ} {B : Type κ} (m : Outcome A) {f g : A → Outcome B}
    → ((a : A) → m ≡ ok a → f a ≡ g a)
    → (m >>= f) ≡ (m >>= g)
>>=_congr (ok a) h = h a refl
>>=_congr (throws e) h = refl
>>=_congr undefined h = refl
>>=_congr diverges h = refl

pub >>=_assoc {ℓ κ μ} :
    {A : Type ℓ} {B : Type κ} {C : Type μ} (m : Outcome A) (f : A → Outcome B) (g : B → Outcome C)
    → (m >>= f >>= g) ≡ (m >>= λ a. f a >>= g)
>>=_assoc (ok a) f g = refl
>>=_assoc (throws e) f g = refl
>>=_assoc undefined f g = refl
>>=_assoc diverges f g = refl

-- No call of a chain runs out of fuel, so the chain does not.
pub >>=-ne-diverges {ℓ κ} :
    {A : Type ℓ} {B : Type κ} (m : Outcome A) (f : A → Outcome B)
    → m ≢ diverges
    → ((a : A) → m ≡ ok a → f a ≢ diverges)
    → (m >>= f) ≢ diverges
>>=-ne-diverges (ok a) f h k = k a refl
>>=-ne-diverges (throws e) f h k = λ p. cc
>>=-ne-diverges undefined f h k = λ p. cc
>>=-ne-diverges diverges f h k = absurd (h refl)

pub >>?-ne-diverges {ℓ κ} :
    {A : Type ℓ} {B : Type κ} (m : Outcome (Option A)) (f : A → Outcome (Option B))
    → m ≢ diverges
    → ((a : A) → m ≡ ok (some a) → f a ≢ diverges)
    → (m >>? f) ≢ diverges
>>?-ne-diverges (ok none) f h k = λ p. cc
>>?-ne-diverges (ok (some a)) f h k = k a refl
>>?-ne-diverges (throws e) f h k = λ p. cc
>>?-ne-diverges undefined f h k = λ p. cc
>>?-ne-diverges diverges f h k = absurd (h refl)
