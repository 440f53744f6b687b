-- ===== src/Text/Tokens.antt =====
-- Cutting a text at its first or last space.
use Prim.Native.String.{String, [], ◌∷◌}
use str_manager.Prelude.{ℕ, suc, ◌+◌, ◌≡◌, refl, ap, ◌∙◌, true, Option, none, some, arith, leb}
use str_manager.Run.{ok, Returns}
use str_manager.Text.{
  ◌+++◌, size, take, drop, find_space, find_last_space, up_to, after, count_spaces,
}
use str_manager.Text.Decimal.{is_spaceless}

pub count_spaces-join : (t r : String) → count_spaces (t +++ r) ≡ count_spaces t + count_spaces r
count_spaces-join [] r = omega arith
count_spaces-join (c ∷ t) r = ground (arith, count_spaces-join t r)

pub size-join : (t r : String) → size (t +++ r) ≡ size t + size r
size-join [] r = omega arith
size-join (c ∷ t) r = omega (arith, size-join t r)

take-size : (t r : String) → take (size t) (t +++ r) ≡ t
take-size [] r = refl
take-size (c ∷ t) r = ap (λ s. c ∷ s) (take-size t r)

drop-size : (t r : String) → drop (size t) (t +++ r) ≡ r
drop-size [] r = refl
drop-size (c ∷ t) r = drop-size t r

drop-size-suc : (t r : String) → drop (suc (size t)) (t +++ " " +++ r) ≡ r
drop-size-suc [] r = refl
drop-size-suc (c ∷ t) r = drop-size-suc t r

find_space-join :
    (t r : String) → is_spaceless t ≡ true → find_space (t +++ " " +++ r) ≡ some (size t)
find_space-join [] r h = refl
find_space-join (c ∷ t) r h = ground (arith, find_space-join t r)

find_last_space-none : (t : String) → is_spaceless t ≡ true → find_last_space t ≡ none
find_last_space-none [] h = refl
find_last_space-none (c ∷ t) h = ground (arith, find_last_space-none t)

find_last_space-join :
    (t r : String) → is_spaceless r ≡ true → find_last_space (t +++ " " +++ r) ≡ some (size t)
find_last_space-join [] r h = rw (find_last_space-none r h) refl
find_last_space-join (c ∷ t) r h = rw (find_last_space-join t r h) refl

-- The token before the first space, and the text after it.
pub up_to-find_space :
    (t r : String)
    → is_spaceless t ≡ true
    → up_to (find_space (t +++ " " +++ r)) (t +++ " " +++ r) ≡ t
up_to-find_space t r h = rw (find_space-join t r h) (take-size t (" " +++ r))

after_join : (t r : String) → after (some (size t)) (t +++ " " +++ r) ≡ ok r
after_join t r = ground (arith, size-join t (" " +++ r), drop-size-suc t r)

pub after-find_space :
    (t r : String)
    → is_spaceless t ≡ true
    → after (find_space (t +++ " " +++ r)) (t +++ " " +++ r) ≡ ok r
after-find_space t r h =
    ap (λ i. after i (t +++ " " +++ r)) (find_space-join t r h) ∙ after_join t r

pub after-find_last_space :
    (t r : String)
    → is_spaceless r ≡ true
    → after (find_last_space (t +++ " " +++ r)) (t +++ " " +++ r) ≡ ok r
after-find_last_space t r h =
    ap (λ i. after i (t +++ " " +++ r)) (find_last_space-join t r h) ∙ after_join t r

-- The position of a space is below the size.
find_space-lt :
    (s : String) → elim (find_space s) [ none ↦ true | some i ↦ leb (suc i) (size s) ] ≡ true
find_space-lt [] = refl
find_space-lt (c ∷ s) = ground (arith, find_space-lt s)

find_last_space-lt :
    (s : String) → elim (find_last_space s) [ none ↦ true | some i ↦ leb (suc i) (size s) ] ≡ true
find_last_space-lt [] = refl
find_last_space-lt (c ∷ s) = ground (arith, find_last_space-lt s)

after-Returns :
    (i : Option ℕ) (s : String)
    → elim i [ none ↦ true | some i ↦ leb (suc i) (size s) ] ≡ true
    → Returns (after i s) (λ t. Unit {0})
after-Returns none s h = (s, refl, tt)
after-Returns (some i) s h = (drop (suc i) s, ground arith, tt)

-- The text after a space that was found, or all of it, is always there.
pub after-find_space_Returns : (s : String) → Returns (after (find_space s) s) (λ t. Unit {0})
after-find_space_Returns s = after-Returns (find_space s) s (find_space-lt s)

pub after-find_last_space_Returns :
    (s : String) → Returns (after (find_last_space s) s) (λ t. Unit {0})
after-find_last_space_Returns s = after-Returns (find_last_space s) s (find_last_space-lt s)
