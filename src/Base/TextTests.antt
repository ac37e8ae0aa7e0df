-- ===== src/Base/TextTests.antt =====
-- Runs of the text operations on literals.
use mathlib.Core.Path.{◌≡◌, refl}
use mathlib.Core.List.{[], ◌∷◌}
use ozint.Base.Text.{to_ascii_lowercase, trim, split_whitespace, join, decimal, replace}

norms :
    to_ascii_lowercase (join " " (split_whitespace "  Ada  King LOVELACE ")) ≡ "ada king lovelace"
unfolding to_ascii_lowercase join split_whitespace
norms = refl

trims : trim " \t a b  " ≡ "a b"
unfolding trim
trims = refl

decimals : join " / " (decimal 14 ∷ decimal 312 ∷ decimal 0 ∷ []) ≡ "14 / 312 / 0"
unfolding join decimal
decimals = refl

replaces : replace "mail ada@x.org or ada@x.org." "ada@x.org" " " ≡ "mail   or  ."
unfolding replace
replaces = refl
