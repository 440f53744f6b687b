-- ===== src/Text.antt =====
-- What the program uses of `std::string`. Texts are sequences of characters of one byte each.
pub mod Decimal
pub mod Tokens
use Prim.Native.Char.{Char, code}
use Prim.Native.String.{String, [], ◌∷◌}
use str_manager.Prelude.{
  ℕ, zero, suc, ◌+◌, Bool, true, false, Option, none, some, leb, if◌then◌else◌,
}
use str_manager.Prelude
use str_manager.Run.{Run, ok, fault, out_of_range}

abbrev pub is_char : Char → ℕ → Bool
is_char c n = Prelude.◌==◌ (code c) n

-- `s + t`
infixr 30 ◌+++◌
abbrev pub ◌+++◌ : String → String → String
[] +++ t = t
(c ∷ s) +++ t = c ∷ (s +++ t)

-- `s == t`
abbrev pub same_text : String → String → Bool
same_text [] [] = true
same_text [] (d ∷ t) = false
same_text (c ∷ s) [] = false
same_text (c ∷ s) (d ∷ t) = if is_char c (code d) then same_text s t else false

-- `s.size()`
abbrev pub size : String → ℕ
size [] = 0
size (_ ∷ s) = suc (size s)

-- `s.substr(0, n)`
abbrev pub take : ℕ → String → String
take zero s = []
take (suc n) [] = []
take (suc n) (c ∷ s) = c ∷ take n s

abbrev pub drop : ℕ → String → String
drop zero s = s
drop (suc n) [] = []
drop (suc n) (c ∷ s) = drop n s

-- `s.substr(n)`, which throws if `n` is above the size.
abbrev pub substr_from : ℕ → String → Run String
substr_from n s = if leb n (size s) then ok (drop n s) else fault out_of_range

-- `s.find(" ")`; `none` is `npos`.
abbrev pub find_space : String → Option ℕ
find_space [] = none
find_space (c ∷ s) =
    let rest = find_space s in
    if is_char c b' ' then some 0 else elim rest [ none ↦ none | some i ↦ some (suc i) ]

-- `s.find_last_of(" ")`
abbrev pub find_last_space : String → Option ℕ
find_last_space [] = none
find_last_space (c ∷ s) = elim (find_last_space s) [
  | some i ↦ some (suc i)
  | none ↦ if is_char c b' ' then some 0 else none
]

-- `s.substr(0, i)` and `s.substr(i + 1)` where `i` may be `npos`: all of `s`, since `npos + 1` is 0.
abbrev pub up_to : Option ℕ → String → String
up_to none s = s
up_to (some i) s = take i s

abbrev pub after : Option ℕ → String → Run String
after none s = ok s
after (some i) s = substr_from (suc i) s

-- `count(s, ' ')` of the examples.
abbrev pub count_spaces : String → ℕ
count_spaces [] = 0
count_spaces (c ∷ s) = let n = count_spaces s in if is_char c b' ' then suc n else n
