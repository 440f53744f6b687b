-- ===== src/Text/Decimal.antt =====
-- The decimal output of integers, and `atoi`, which reads them back.
use Prim.Native.Char.{Char, code}
use Prim.Native.String.{String, [], ◌∷◌}
use str_manager.Prelude.{
  ℕ, zero, suc, ◌+◌, ◌-◌, ◌*◌, ◌/◌, ◌%◌, ◌<◌, ◌≡◌, refl, ◌∙◌, ap, Bool, true, false, ◌&&◌, ◌||◌,
  ltb, leb, arith, inl, inr, Bool-cases, if◌then◌else◌,
}
use str_manager.Prelude
use str_manager.Int.{ℤ, pos, negsuc}
use str_manager.Text.{is_char, count_spaces}

abbrev pub digit : ℕ → Char
digit d =
    if Prelude.◌==◌ d 0
    then "0"
    else if Prelude.◌==◌ d 1
    then "1"
    else if Prelude.◌==◌ d 2
    then "2"
    else if Prelude.◌==◌ d 3
    then "3"
    else if Prelude.◌==◌ d 4
    then "4"
    else if Prelude.◌==◌ d 5
    then "5"
    else if Prelude.◌==◌ d 6
    then "6"
    else if Prelude.◌==◌ d 7
    then "7"
    else if Prelude.◌==◌ d 8
    then "8"
    else "9"

-- The digits of `n` before `out`. A number below the fuel has its digits in full.
emit : ℕ → ℕ → String → String
emit zero n out = out
emit (suc fuel) n out = elim (ltb n 10) [
  | true ↦ digit n ∷ out
  | false ↦ emit fuel (n / 10) (digit (n % 10) ∷ out)
]

unfoldable pub show_nat : ℕ → String
unfolding emit
show_nat n = emit (suc n) n []

-- `stm << z`
unfoldable pub show_int : ℤ → String
unfolding show_nat
show_int (pos n) = show_nat n
show_int (negsuc n) = "-" ∷ show_nat (suc n)

abbrev pub is_digit : Char → Bool
is_digit c = leb 48 (code c) && leb (code c) 57

abbrev pub is_blank : Char → Bool
is_blank c = Prelude.◌==◌ (code c) 32 || leb 9 (code c) && leb (code c) 13

-- The number that the digits at the front spell, after `n`.
abbrev pub scan : ℕ → String → ℕ
scan n [] = n
scan n (c ∷ s) = if is_digit c then scan (n * 10 + (code c - 48)) s else n

abbrev pub minus : ℕ → ℤ
minus zero = pos 0
minus (suc n) = negsuc n

abbrev pub signed : String → ℤ
signed [] = pos 0
signed (c ∷ s) =
    if is_char c b'-'
    then minus (scan 0 s)
    else if is_char c b'+'
    then pos (scan 0 s)
    else pos (scan 0 (c ∷ s))

-- `atoi(s)`
unfoldable pub atoi : String → ℤ
atoi [] = pos 0
atoi (c ∷ s) = let rest = atoi s in if is_blank c then rest else signed (c ∷ s)

code-digit : (n : ℕ) → n < 10 → code (digit n) ≡ 48 + n
code-digit zero h = refl
code-digit (suc zero) h = refl
code-digit (suc (suc zero)) h = refl
code-digit (suc (suc (suc zero))) h = refl
code-digit (suc (suc (suc (suc zero)))) h = refl
code-digit (suc (suc (suc (suc (suc zero))))) h = refl
code-digit (suc (suc (suc (suc (suc (suc zero)))))) h = refl
code-digit (suc (suc (suc (suc (suc (suc (suc zero))))))) h = refl
code-digit (suc (suc (suc (suc (suc (suc (suc (suc zero)))))))) h = refl
code-digit (suc (suc (suc (suc (suc (suc (suc (suc (suc zero))))))))) h = refl
code-digit (suc (suc (suc (suc (suc (suc (suc (suc (suc (suc n)))))))))) h = absurd (omega arith)

scan-digit : (n d : ℕ) (out : String) → d < 10 → scan n (digit d ∷ out) ≡ scan (n * 10 + d) out
scan-digit n d out h = ground (arith, code-digit d h)

emit_small : (fuel n : ℕ) (out : String) → ltb n 10 ≡ true → emit (suc fuel) n out ≡ digit n ∷ out
unfolding emit
emit_small fuel n out small = rw (small, emit)

emit_large :
    (fuel n : ℕ) (out : String)
    → ltb n 10 ≡ false
    → emit (suc fuel) n out ≡ emit fuel (n / 10) (digit (n % 10) ∷ out)
unfolding emit
emit_large fuel n out large = rw (large, emit)

scan-emit : (fuel n : ℕ) (out : String) → n < fuel → scan 0 (emit fuel n out) ≡ scan n out
scan-emit zero n out h = absurd (omega arith)
scan-emit (suc fuel) n out h = elim (Bool-cases (ltb n 10)) [
  | inl small ↦
      ap (scan 0) (emit_small fuel n out small)
      ∙ scan-digit 0 n out (ground arith)
      ∙ ap (λ k. scan k out) (omega arith)
  | inr large ↦
      ap (scan 0) (emit_large fuel n out large)
      ∙ scan-emit fuel (n / 10) (digit (n % 10) ∷ out) (ground arith)
      ∙ scan-digit (n / 10) (n % 10) out (omega arith)
      ∙ ap (λ k. scan k out) (omega arith)
]

-- A text that starts with a digit.
abbrev pub opens : String → Bool
opens [] = false
opens (c ∷ s) = is_digit c

opens-emit : (fuel n : ℕ) (out : String) → n < fuel → opens (emit fuel n out) ≡ true
opens-emit zero n out h = absurd (omega arith)
opens-emit (suc fuel) n out h = elim (Bool-cases (ltb n 10)) [
  | inl small ↦ ap opens (emit_small fuel n out small) ∙ ground (arith, code-digit n (ground arith))
  | inr large ↦
      ap opens (emit_large fuel n out large)
      ∙ opens-emit fuel (n / 10) (digit (n % 10) ∷ out) (ground arith)
]

atoi-opens : (s : String) → opens s ≡ true → atoi s ≡ pos (scan 0 s)
unfolding atoi
atoi-opens [] h = cc
atoi-opens (c ∷ s) h = ground (arith, h)

atoi-show_nat : (n : ℕ) → atoi (show_nat n) ≡ pos n
unfolding show_nat
atoi-show_nat n =
    atoi-opens (emit (suc n) n []) (opens-emit (suc n) n [] (omega arith))
    ∙ ap pos (scan-emit (suc n) n [] (omega arith))

-- `atoi` reads back every integer as it is printed.
pub atoi-show_int : (z : ℤ) → atoi (show_int z) ≡ z
unfolding show_int atoi
atoi-show_int (pos n) = atoi-show_nat n
atoi-show_int (negsuc n) = ap minus (scan-emit (suc (suc n)) (suc n) [] (omega arith))

abbrev pub is_spaceless : String → Bool
is_spaceless s = Prelude.◌==◌ (count_spaces s) 0

emit-spaceless :
    (fuel n : ℕ) (out : String)
    → n < fuel
    → is_spaceless out ≡ true
    → is_spaceless (emit fuel n out) ≡ true
emit-spaceless zero n out h k = absurd (omega arith)
emit-spaceless (suc fuel) n out h k = elim (Bool-cases (ltb n 10)) [
  | inl small ↦
      ap is_spaceless (emit_small fuel n out small) ∙ ground (arith, code-digit n (ground arith))
  | inr large ↦
      ap is_spaceless (emit_large fuel n out large)
      ∙ emit-spaceless fuel (n / 10) (digit (n % 10) ∷ out) (ground arith)
          (ground (arith, code-digit (n % 10) (omega arith)))
]

-- A printed integer has no space.
pub is_spaceless-show_int : (z : ℤ) → is_spaceless (show_int z) ≡ true
unfolding show_int show_nat
is_spaceless-show_int (pos n) = emit-spaceless (suc n) n [] (omega arith) refl
is_spaceless-show_int (negsuc n) = emit-spaceless (suc (suc n)) (suc n) [] (omega arith) refl
