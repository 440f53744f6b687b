-- ===== src/Table/Keys.antt =====
-- The key predicate of a hash map, and what the map asks of it.
use str_manager.Prelude.{◌≡◌, Bool, true, arith}
use str_manager.Int.{ℤ, ◌==◌, ==_iff}

pub record Key (K : Type 0) : Type 0 where
  pub same : K → K → Bool
  pub same_refl : (a : K) → same a a ≡ true
  pub same_symm : (a b : K) → same a b ≡ same b a
  pub same_trans : (a b c : K) → same a b ≡ true → same b c ≡ true → same a c ≡ true

module _ {K : Type 0} ⦃key : Key K⦄ where
  infix 50 ◌~◌
  abbrev pub ◌~◌ : K → K → Bool
  a ~ b = key.same a b

  pub ~_congr_left : (a b c : K) → (a ~ b) ≡ true → (a ~ c) ≡ (b ~ c)
  ~_congr_left a b c h =
      ground (arith, key.same_symm a b, key.same_trans a b c, key.same_trans b a c)

  pub ~_congr_right : (a b c : K) → (b ~ c) ≡ true → (a ~ b) ≡ (a ~ c)
  ~_congr_right a b c h = rw (key.same_symm a b, key.same_symm a c) (~_congr_left b c a h)

pub ==_refl : (a : ℤ) → (a == a) ≡ true
==_refl a = (==_iff a a).1 (ground arith)

pub ==_symm : (a b : ℤ) → (a == b) ≡ (b == a)
==_symm a b = ground (arith, ==_iff a b, ==_iff b a)

pub ==_trans : (a b c : ℤ) → (a == b) ≡ true → (b == c) ≡ true → (a == c) ≡ true
==_trans a b c h k = ground (arith, ==_iff a b, ==_iff b c, ==_iff a c)

-- `std::equal_to<int>`
instance abbrev pub int_key : Key ℤ
int_key = record { same = ◌==◌; same_refl = ==_refl; same_symm = ==_symm; same_trans = ==_trans }
