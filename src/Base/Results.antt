-- ===== src/Base/Results.antt =====
-- Exceptions as values: an error carries the class of the HTTP exception that the code throws.
use mathlib.Core.Path.{◌≡◌, refl}
use mathlib.Core.Bool.{Bool, true, false}
use mathlib.Core.Option.{Option, none, some}

pub data Exception : Type 0 where
  bad_request conflict not_found forbidden unavailable unauthorized too_many_requests other :
      Exception

pub data Result {ℓ} (A : Type ℓ) : Type ℓ where
  err : Exception → Result A
  ok : A → Result A

-- `if (test) throw e`
abbrev pub throw_if : Bool → Exception → Result (Unit {0})
throw_if true e = err e
throw_if false e = ok tt

-- `if (!row) throw e`
abbrev pub or_throw {ℓ} : {A : Type ℓ} → Option A → Exception → Result A
or_throw none e = err e
or_throw (some a) e = ok a

-- The rest runs only if nothing was thrown.
infixl 5 ◌>>=◌
unfoldable pub ◌>>=◌ {ℓ κ} : {A : Type ℓ} {B : Type κ} → Result A → (A → Result B) → Result B
err thrown >>= rest = err thrown
ok value >>= rest = rest value

infixl 5 ◌>>◌
abbrev pub ◌>>◌ {ℓ} : {B : Type ℓ} → Result (Unit {0}) → Result B → Result B
check >> rest = check >>= λ _. rest

-- `$transaction`: what it wrote is kept only if it did not throw.
unfoldable pub commit {ℓ κ} : {A : Type ℓ} {S : Type κ} → S → Result (A × S) → Result A × S
commit s (ok (a, s')) = (ok a, s')
commit s (err e) = (err e, s)

-- What a chain that succeeds went through.
pub >>=-eq-ok {ℓ κ} :
    {A : Type ℓ} {B : Type κ} (first : Result A) (rest : A → Result B) {result : B}
    → (first >>= rest) ≡ ok result
    → (value : A) × (first ≡ ok value) × (rest value ≡ ok result)
unfolding ◌>>=◌
>>=-eq-ok (err thrown) rest h = cc
>>=-eq-ok (ok value) rest h = (value, refl, h)

-- What holds before a transaction holds after it, if each way through keeps it.
pub commit_bind {ℓ κ μ ν} :
    {A : Type ℓ} {B : Type κ} {S : Type μ} (P : S → Type ν) (s : S) (m : Result A)
    (f : A → Result (B × S))
    → P s
    → ((a : A) → m ≡ ok a → P (commit s (f a)).1)
    → P (commit s (m >>= f)).1
unfolding ◌>>=◌ commit
commit_bind P s (ok a) f h k = k a refl
commit_bind P s (err e) f h k = h

-- A transaction that succeeds leaves what it wrote.
pub commit-eq-ok {ℓ κ} :
    {A : Type ℓ} {S : Type κ} (s : S) (m : Result (A × S)) {a : A} {s' : S}
    → commit s m ≡ (ok a, s')
    → m ≡ ok (a, s')
unfolding commit
commit-eq-ok s (ok (a, s')) h = cc
commit-eq-ok s (err e) h = cc

pub throw_if-eq-ok : (b : Bool) (e : Exception) {u : Unit {0}} → throw_if b e ≡ ok u → b ≡ false
throw_if-eq-ok true e h = cc
throw_if-eq-ok false e h = refl

-- What holds of the outcome of a failed transaction, and of each way through, holds of the outcome.
pub commit_outcome {ℓ κ μ ν} :
    {A : Type ℓ} {B : Type κ} {S : Type μ} (P : Result B × S → Type ν) (s : S) (m : Result A)
    (f : A → Result (B × S))
    → ((e : Exception) → P (err e, s))
    → ((a : A) → m ≡ ok a → P (commit s (f a)))
    → P (commit s (m >>= f))
unfolding ◌>>=◌ commit
commit_outcome P s (ok a) f h k = k a refl
commit_outcome P s (err e) f h k = h e

pub throw_if_then-eq-ok {ℓ} :
    {B : Type ℓ} (b : Bool) (e : Exception) (rest : Result B) {a : B}
    → (throw_if b e >> rest) ≡ ok a
    → (b ≡ false) × (rest ≡ ok a)
unfolding ◌>>=◌
throw_if_then-eq-ok true e rest h = cc
throw_if_then-eq-ok false e rest h = (refl, h)

pub or_throw-eq-ok {ℓ} :
    {A : Type ℓ} (o : Option A) (e : Exception) {a : A} → or_throw o e ≡ ok a → o ≡ some a
or_throw-eq-ok none e h = cc
or_throw-eq-ok (some a) e h = cc

-- What holds of every error, and of what follows a step that succeeds, holds of the chain.
pub bind_outcome {ℓ κ μ} :
    {A : Type ℓ} {B : Type κ} (P : Result B → Type μ) (m : Result A) (f : A → Result B)
    → ((e : Exception) → P (err e))
    → ((a : A) → m ≡ ok a → P (f a))
    → P (m >>= f)
unfolding ◌>>=◌
bind_outcome P (ok a) f h k = k a refl
bind_outcome P (err e) f h k = h e
