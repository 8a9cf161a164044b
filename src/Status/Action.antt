-- ===== src/Status/Action.antt =====
-- A method of an object that returns `Status` or fills an output: the object comes back on an error
-- too, with what the method changed before. A bind is VDB_RETURN_IF_ERROR. The result `none` is an
-- access out of bounds.
use mathlib.Core.Option.{some-injective}
use vec_fetch.Prelude.{Bool, true, false, Option, none, some, ◌≡◌, refl, ap}
use vec_fetch.Status.{StatusOr, value, failed, Failure}

abbrev pub Action : Type 0 → Type 0 → Type 0
Action S A = S → Option (StatusOr A × S)

-- What follows the outcome of a call.
abbrev pub and_then :
    {S A B : Type 0} → Option (StatusOr A × S) → (A → Action S B) → Option (StatusOr B × S)
and_then none f = none
and_then (some (value a, s)) f = f a s
and_then (some (failed e, s)) f = some (failed e, s)

infixl 5 ◌>>=◌ ◌>>◌
abbrev pub ◌>>=◌ : {S A B : Type 0} → Action S A → (A → Action S B) → Action S B
◌>>=◌ m f s = and_then (m s) f

abbrev pub ◌>>◌ : {S A B : Type 0} → Action S A → Action S B → Action S B
m >> k = m >>= λ _. k

module _ {S : Type 0} where
  abbrev pub pure : {A : Type 0} → A → Action S A
  pure a s = some (value a, s)

  abbrev pub gets : {A : Type 0} → (S → A) → Action S A
  gets f s = some (value (f s), s)

  abbrev pub modify : (S → S) → Action S (Unit {0})
  modify f s = some (value tt, f s)

  abbrev pub fail_if : Bool → Failure → Action S (Unit {0})
  fail_if true e s = some (failed e, s)
  fail_if false e s = some (value tt, s)

bind-value-go :
    {S A B : Type 0} (f : A → Action S B) (s'' : S) (b : B) (r : Option (StatusOr A × S))
    → and_then r f ≡ some (value b, s'')
    → (a : A) × (s' : S) × (r ≡ some (value a, s')) × (f a s' ≡ some (value b, s''))
bind-value-go f s'' b none h = absurd (cc)
bind-value-go f s'' b (some (value a, s')) h = (a, s', refl, h)
bind-value-go {S} {A} {B} f s'' b (some (failed e, s')) h =
    let left : StatusOr B × S = (failed e, s') in
    let right : StatusOr B × S = (value b, s'') in
    absurd (
      let never : failed e ≡ value b =
        ap (λ (x : StatusOr B × S). x.0) (some-injective left right h) in
      cc)

-- A chain that gives a value went through each of its calls.
pub bind-value :
    {S A B : Type 0} (m : Action S A) (f : A → Action S B) (s s'' : S) (b : B)
    → (m >>= f) s ≡ some (value b, s'')
    → (a : A) × (s' : S) × (m s ≡ some (value a, s')) × (f a s' ≡ some (value b, s''))
bind-value m f s s'' b h = bind-value-go f s'' b (m s) h

-- What a call returns when it returns a value.
pub returned :
    {S A : Type 0} {a a' : A} {s s' : S}
    → ◌≡◌ {A = Option (StatusOr A × S)} (some (value a, s)) (some (value a', s'))
    → (a ≡ a') × (s ≡ s')
returned {S} {A} {a} {a'} {s} {s'} h =
    let left : StatusOr A × S = (value a, s) in
    let right : StatusOr A × S = (value a', s') in
    let e : left ≡ right = some-injective left right h in
    (
      ap (λ (x : StatusOr A × S). elim x.0 [ value b ↦ b | failed e ↦ a ]) e,
      ap (λ (x : StatusOr A × S). x.1) e,
    )

-- A chain goes on with the value of its first call.
pub bind-run :
    {S A B : Type 0} (m : Action S A) (f : A → Action S B) (s s' : S) (a : A)
    → m s ≡ some (value a, s')
    → (m >>= f) s ≡ f a s'
bind-run {S} {A} m f s s' a h = ap (λ (r : Option (StatusOr A × S)). and_then r f) h
