-- ===== src/Run.antt =====
-- Code that can run into undefined behaviour: a null pointer or the end iterator is dereferenced,
-- a pointer runs off a literal or dangles, a set has no room, a function that should return a value
-- ends without; or a position is out of range, which throws. `fault` says which; a method that returns
-- gives `ok`.
use str_manager.Prelude.{◌≡◌, refl, sym, subst, ◌∙◌, ◌⊎◌, inl, inr}

pub data Fault : Type 0 where
  null_pointer end_iterator out_of_literal out_of_range no_return dangling_pointer out_of_set :
      Fault

pub data Run {ℓ} (A : Type ℓ) : Type ℓ where
  fault : Fault → Run A
  ok : A → Run A

pub Run-cases {ℓ} :
    {A : Type ℓ} (r : Run A) → ((e : Fault) × (r ≡ fault e)) ⊎ ((a : A) × (r ≡ ok a))
Run-cases (ok a) = inr (a, refl)
Run-cases (fault e) = inl (e, refl)

-- A method goes on with the value of the one that it calls.
infixl 5 ◌>>=◌
abbrev pub ◌>>=◌ {ℓ} : {A B : Type ℓ} → Run A → (A → Run B) → Run B
fault why >>= next = fault why
ok value >>= next = next value

-- The method returns, and what it returns satisfies `Post`.
abbrev pub Returns {κ ℓ} : {A : Type ℓ} (body : Run A) (Post : A → Type κ) → Type (ℓ ⊔ κ)
Returns {A} body Post = (value : A) × (body ≡ ok value) × Post value

ok-ok : {A : Type 0} {a b : A} → ok a ≡ ok b → a ≡ b
ok-ok h = cc

-- Two statements on one run hold together.
pub Returns-both {κ} :
    {A : Type 0} {P Q : A → Type κ} {body : Run A}
    → Returns body P
    → Returns body Q
    → Returns body (λ a. P a × Q a)
Returns-both {Q} (a, e, p) (b, e', q) = (a, e, (p, subst Q (ok-ok (sym e' ∙ e)) q))

-- What a run returned is what is said of it.
pub of_Returns {κ} :
    {A : Type 0} {P : A → Type κ} {body : Run A} {a : A} → Returns body P → body ≡ ok a → P a
of_Returns {P} (b, e, p) h = subst P (ok-ok (sym e ∙ h)) p
