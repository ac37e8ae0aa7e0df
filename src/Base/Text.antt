-- ===== src/Base/Text.antt =====
-- The operations of Rust's `str` that the crate uses on labels, names and values.
use Prim.Native.Char.{Char, code}
use Prim.Native.Nat.{ℕ, zero, suc, ◌-◌, ◌/◌, ◌%◌}
use Prim.Native.String.{String, ◌++◌ as append_string, char_at, count}
use mathlib.Core.Bool.{Bool, true, false, ◌&&◌, ◌||◌}
use mathlib.Core.List.{List, [], ◌∷◌}
use text.Mathlib.Text.{starts_with}
use ozint.Base.Tests.{ltb, leb, nat_eq, if◌then◌else◌}

abbrev pub is_empty : String → Bool
is_empty String.[] = true
is_empty (String.◌∷◌ c s) = false

-- `char::is_whitespace`: the code points with the Unicode property White_Space.
is_whitespace : Char → Bool
is_whitespace c =
    let n : ℕ = code c in
    (leb 9 n && leb n 13)
    || nat_eq n 32
    || nat_eq n 133
    || nat_eq n 160
    || nat_eq n 5760
    || (leb 8192 n && leb n 8202)
    || nat_eq n 8232
    || nat_eq n 8233
    || nat_eq n 8239
    || nat_eq n 8287
    || nat_eq n 12288

to_ascii_lowercase_char : Char → Char
to_ascii_lowercase_char c =
    if leb 65 (code c) && leb (code c) 90
    then char_at "abcdefghijklmnopqrstuvwxyz" (code c - 65)
    else c

unfoldable pub to_ascii_lowercase : String → String
unfolding to_ascii_lowercase_char
to_ascii_lowercase String.[] = ""
to_ascii_lowercase (String.◌∷◌ c s) = String.◌∷◌ (to_ascii_lowercase_char c) (to_ascii_lowercase s)

-- `trim_start_matches` and `trim_end_matches` with a test on characters.
unfoldable pub trim_start_matches : (Char → Bool) → String → String
trim_start_matches p String.[] = ""
trim_start_matches p (String.◌∷◌ c s) =
    let rest = trim_start_matches p s in if p c then rest else String.◌∷◌ c s

unfoldable pub trim_end_matches : (Char → Bool) → String → String
trim_end_matches p String.[] = ""
trim_end_matches p (String.◌∷◌ c s) =
    let rest = trim_end_matches p s in if is_empty rest && p c then "" else String.◌∷◌ c rest

unfoldable pub trim : String → String
unfolding trim_start_matches trim_end_matches is_whitespace
trim s = trim_end_matches is_whitespace (trim_start_matches is_whitespace s)

-- The words of a text, `current` being the one that is read.
words_from : String → String → List String
unfolding is_whitespace
words_from current String.[] = if is_empty current then [] else current ∷ []
words_from current (String.◌∷◌ c s) =
    let closed = words_from "" s in
    let longer = words_from (append_string current (String.◌∷◌ c "")) s in
    if is_whitespace c then (if is_empty current then closed else current ∷ closed) else longer

unfoldable pub split_whitespace : String → List String
unfolding words_from
split_whitespace s = words_from "" s

unfoldable pub join : String → List String → String
join separator [] = ""
join separator (s ∷ []) = s
join separator (s ∷ r ∷ rs) = append_string s (append_string separator (join separator (r ∷ rs)))

-- A number in decimal, as `format!` writes it: each step of the fuel takes a digit, and a number has
-- at most as many digits as itself and one.
digits : ℕ → ℕ → String
digits zero n = ""
digits (suc fuel) n =
    let rest = digits fuel (n / 10) in
    let digit = String.◌∷◌ (char_at "0123456789" (n % 10)) "" in
    if ltb n 10 then digit else append_string rest digit

unfoldable pub decimal : ℕ → String
unfolding digits
decimal n = digits (suc n) n

-- `str::replace` of a text that is not empty; `skip` counts the characters of a match still to drop.
replace_from : String → String → ℕ → String → String
replace_from pattern new skip String.[] = ""
replace_from pattern new (suc skip) (String.◌∷◌ c s) = replace_from pattern new skip s
replace_from pattern new zero (String.◌∷◌ c s) =
    let dropped = replace_from pattern new (count pattern - 1) s in
    let kept = replace_from pattern new 0 s in
    if starts_with (String.◌∷◌ c s) pattern then append_string new dropped else String.◌∷◌ c kept

unfoldable pub replace : String → String → String → String
unfolding replace_from
replace s pattern new = replace_from pattern new 0 s
