-- ===== src/Js/Text.antt =====
-- `s.trim().length === 0` for texts.
use Prim.Native.Char.{code}
use Prim.Native.String.{String, [], ◌∷◌}
use oacp.Prelude.{ℕ, Bool, true, false, if◌then◌else◌, ◌&&◌, ◌||◌, leb, nat_eq}

-- The white space and the line terminators of ECMAScript.
is_white_space : ℕ → Bool
is_white_space n =
    (leb 9 n && leb n 13)
    || nat_eq n 32
    || nat_eq n 160
    || nat_eq n 5760
    || (leb 8192 n && leb n 8202)
    || nat_eq n 8232
    || nat_eq n 8233
    || nat_eq n 8239
    || nat_eq n 8287
    || nat_eq n 12288
    || nat_eq n 65279

unfoldable pub is_blank : String → Bool
unfolding is_white_space
is_blank [] = true
is_blank (c ∷ s) = let rest = is_blank s in is_white_space (code c) && rest

unfoldable pub trim_start : String → String
unfolding is_white_space
trim_start [] = []
trim_start (c ∷ s) = let rest = trim_start s in if is_white_space (code c) then rest else c ∷ s

is_empty : String → Bool
is_empty [] = true
is_empty (c ∷ s) = false

unfoldable pub trim_end : String → String
unfolding is_white_space is_empty
trim_end [] = []
trim_end (c ∷ s) =
    let rest = trim_end s in if is_white_space (code c) && is_empty rest then [] else c ∷ rest

-- `s.trim()`
abbrev pub trim : String → String
trim s = trim_end (trim_start s)
