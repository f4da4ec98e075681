-- ===== src/Base/Text.antt =====
-- Texts that the program builds: `std::to_string` on non-negative numbers and the joining of parts.
-- `find_char` is `text.find(c) != npos`.
use Prim.Native.Nat.{ℕ, zero, suc, ◌/◌, ◌%◌}
use Prim.Native.Char.{code}
use Prim.Native.String.{String, ◌++◌ as str_append}
use mathlib.Core.Bool.{Bool, false, ◌||◌}
use mathlib.Core.List.{List, [], ◌∷◌}
use sched_forge.Base.Tests.{ltb, ◌==◌, if◌then◌else◌}

digit : ℕ → String
digit n =
    if n == 0
    then "0"
    else if n == 1
    then "1"
    else if n == 2
    then "2"
    else if n == 3
    then "3"
    else if n == 4
    then "4"
    else if n == 5
    then "5"
    else if n == 6
    then "6"
    else if n == 7
    then "7"
    else if n == 8
    then "8"
    else "9"

-- The fuel is the number itself and one more, which has at least as many digits.
decimal : ℕ → ℕ → String → String
unfolding digit
decimal zero n acc = acc
decimal (suc fuel) n acc =
    let rest = decimal fuel (n / 10) (str_append (digit (n % 10)) acc) in
    if ltb n 10 then str_append (digit n) acc else rest

unfoldable pub to_string : ℕ → String
unfolding decimal
to_string n = decimal (suc n) n ""

unfoldable pub join : List String → String
join [] = ""
join (s ∷ ss) = str_append s (join ss)

unfoldable pub find_char : ℕ → String → Bool
find_char c String.[] = false
find_char c (String.◌∷◌ d s) = code d == c || find_char c s
