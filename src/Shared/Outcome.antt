-- ===== src/Shared/Outcome.antt =====
-- What a call returns: its value, or the exception that it raised.
use mathlib.Core.Path.{◌≡◌, refl}
use mathlib.Core.Logic.{◌⊎◌, inl, inr}
use mathlib.Core.Bool.{Bool, true, false}

pub data Result {ℓ} (E : Type 0) (A : Type ℓ) : Type ℓ where
  ok : A → Result E A
  err : E → Result E A

abbrev pub bind {ℓ κ} :
    {E : Type 0} {A : Type ℓ} {B : Type κ} → Result E A → (A → Result E B) → Result E B
bind (ok a) f = f a
bind (err e) f = err e

abbrev pub raise_if : {E : Type 0} → Bool → E → Result E (Unit {0})
raise_if true e = err e
raise_if false e = ok tt

pub bind-eq-ok {ℓ κ} :
    {E : Type 0} {A : Type ℓ} {B : Type κ} (first : Result E A) (next : A → Result E B) {done : B}
    → bind first next ≡ ok done
    → (x : A) × (first ≡ ok x) × (next x ≡ ok done)
bind-eq-ok (ok x) next returns = (x, refl, returns)
bind-eq-ok (err e) next returns = cc

pub Result-cases {ℓ} :
    {E : Type 0} {A : Type ℓ} (r : Result E A) → ((a : A) × (r ≡ ok a)) ⊎ ((e : E) × (r ≡ err e))
Result-cases (ok a) = inl (a, refl)
Result-cases (err e) = inr (e, refl)

pub raise_if-eq-ok :
    {E : Type 0} (b : Bool) (e : E) {u : Unit {0}} → raise_if b e ≡ ok u → b ≡ false
raise_if-eq-ok true e h = cc
raise_if-eq-ok false e h = refl

-- The other way: a step that returns, and one that does not raise.
pub bind-ok {ℓ κ} :
    {E : Type 0} {A : Type ℓ} {B : Type κ} {m : Result E A} (f : A → Result E B) {a : A}
    {r : Result E B}
    → m ≡ ok a
    → f a ≡ r
    → bind m f ≡ r
bind-ok f e h = rw e h

pub raise_if_pass : {E : Type 0} {b : Bool} (e : E) → b ≡ false → raise_if b e ≡ ok tt
raise_if_pass e h = rw h

pub bind-eq-err {ℓ κ} :
    {E : Type 0} {A : Type ℓ} {B : Type κ} (first : Result E A) (next : A → Result E B) {why : E}
    → bind first next ≡ err why
    → (first ≡ err why) ⊎ ((x : A) × (first ≡ ok x) × (next x ≡ err why))
bind-eq-err (ok x) next raises = inr (x, refl, raises)
bind-eq-err (err other) next raises = inl (cc)

-- What a call that returns a pair has returned.
pub ok_pair :
    {E A B : Type 0} {a c : A} {b d : B}
    → ◌≡◌ {A = Result E (A × B)} (ok (a, b)) (ok (c, d))
    → (a ≡ c) × (b ≡ d)
ok_pair h = (cc, cc)
