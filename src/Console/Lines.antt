-- ===== src/Console/Lines.antt =====
-- The positions at which `execute` cuts a line, against its length.
use Prim.Native.String.{String, [], ◌∷◌}
use str_manager.Prelude.{ℕ, ◌+◌, ◌≤◌, ◌≡◌, refl, Bool, true, false, ◌&&◌, arith, if◌then◌else◌}
use str_manager.Run.{Run, ok, Returns}
use str_manager.Text.{same_text, size, take, drop, substr_from, count_spaces}
use str_manager.Text.Tokens.{after-find_space_Returns, after-find_last_space_Returns}
use str_manager.Console.Parse.{
  Command, starts, has_spaces, parse, parse_addsource, parse_remsource, parse_adddestination,
  parse_remdestination, parse_remip,
}

size-count : (s : String) → count_spaces s ≤ size s
size-count [] = omega arith
size-count (c ∷ s) = ground (arith, size-count s)

-- A line that starts with a word without spaces is as long as the word and the spaces together.
starts-size :
    (word s : String)
    → count_spaces word ≡ 0
    → same_text (take (size word) s) word ≡ true
    → size word + count_spaces s ≤ size s
starts-size [] s plain h = omega (arith, size-count s)
starts-size (d ∷ word) [] plain h = cc
starts-size (d ∷ word) (c ∷ s) plain h = ground (arith, starts-size word s)

substr_from-Returns : (n : ℕ) (s : String) → n ≤ size s → Returns (substr_from n s) (λ t. Unit {0})
substr_from-Returns n s h = (drop n s, ground arith, tt)

-- What stands after the first `n` characters is there, as long as the line starts with a word and has
-- spaces enough.
past_word :
    (n : ℕ) (word s : String) (spaces : ℕ)
    → count_spaces word ≡ 0
    → (starts (size word) word s && has_spaces spaces s) ≡ true
    → n ≤ size word + spaces
    → Returns (substr_from n s) (λ t. Unit {0})
past_word n word s spaces plain h room =
    substr_from-Returns n s (ground (arith, starts-size word s plain))

abbrev Readable : Run Command → Type 0
Readable r = Returns r (λ c. Unit {0})

addsource-Returns :
    (line : String)
    → (starts 9 "addsource" line && has_spaces 3 line) ≡ true
    → Readable (parse_addsource line)
unfolding parse_addsource
addsource-Returns line h =
    let (line₁, cut₁, u₁) = past_word 10 "addsource" line 3 refl h (omega arith) in
    let (line₂, cut₂, u₂) = after-find_space_Returns line₁ in
    let (line₃, cut₃, u₃) = after-find_last_space_Returns line₂ in
    rw (cut₁, cut₂, cut₃) (_, refl, tt)

remsource-Returns :
    (line : String)
    → (starts 9 "remsource" line && has_spaces 1 line) ≡ true
    → Readable (parse_remsource line)
unfolding parse_remsource
remsource-Returns line h =
    let (line₁, cut₁, u₁) = past_word 10 "remsource" line 1 refl h (omega arith) in
    rw cut₁ (_, refl, tt)

adddestination-Returns :
    (line : String)
    → (starts 14 "adddestination" line && has_spaces 3 line) ≡ true
    → Readable (parse_adddestination line)
unfolding parse_adddestination
adddestination-Returns line h =
    let (line₁, cut₁, u₁) = past_word 15 "adddestination" line 3 refl h (omega arith) in
    let (line₂, cut₂, u₂) = after-find_space_Returns line₁ in
    let (line₃, cut₃, u₃) = after-find_space_Returns line₂ in rw (cut₁, cut₂, cut₃) (_, refl, tt)

remdestination-Returns :
    (line : String)
    → (starts 14 "remdestination" line && has_spaces 2 line) ≡ true
    → Readable (parse_remdestination line)
unfolding parse_remdestination
remdestination-Returns line h =
    let (line₁, cut₁, u₁) = past_word 15 "remdestination" line 2 refl h (omega arith) in
    let (line₂, cut₂, u₂) = after-find_space_Returns line₁ in rw (cut₁, cut₂) (_, refl, tt)

remip-Returns :
    (line : String)
    → (starts 5 "remip" line && has_spaces 1 line) ≡ true
    → Readable (parse_remip line)
unfolding parse_remip
remip-Returns line h =
    let (line₁, cut₁, u₁) = past_word 6 "remip" line 1 refl h (omega arith) in rw cut₁ (_, refl, tt)

-- A branch of `execute` can be read if its half is, and the rest is.
branch :
    (test : Bool) (first rest : Run Command)
    → (test ≡ true → Readable first)
    → Readable rest
    → Readable (if test then first else rest)
branch true first rest h k = h refl
branch false first rest h k = k

fine : (c : Command) → Readable (ok c)
fine c = (c, refl, tt)

-- Every line is read as a command: no `substr` throws.
pub parse-Returns : (line : String) → Returns (parse line) (λ command. Unit {0})
unfolding parse
parse-Returns line =
    branch (same_text line "") _ _ (λ _. fine _)
      (branch (starts 9 "addsource" line && has_spaces 3 line) _ _ (addsource-Returns line) (
        branch (starts 9 "remsource" line && has_spaces 1 line) _ _ (remsource-Returns line) (
          branch (starts 14 "adddestination" line && has_spaces 3 line) _ _
            (adddestination-Returns line)
            (branch (starts 14 "remdestination" line && has_spaces 2 line) _ _
              (remdestination-Returns line)
              (branch (starts 5 "remip" line && has_spaces 1 line) _ _ (remip-Returns line) (
                branch (starts 6 "printm" line) _ _ (λ _. fine _)
                  (branch (starts 6 "printf" line) _ _ (λ _. fine _)
                    (branch (starts 6 "printp" line) _ _ (λ _. fine _)
                      (branch (starts 4 "help" line) _ _ (λ _. fine _)
                        (branch (starts 4 "exit" line) _ _ (λ _. fine _) (fine _)))))))))))
