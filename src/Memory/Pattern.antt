-- ===== src/Memory/Pattern.antt =====
-- The pattern of scopes in core/src/memory/scope-manager.ts.
use Prim.Native.Char.{code}
use Prim.Native.String.{String, [], ◌∷◌}
use oacp.Prelude.{ℕ, zero, suc, Bool, true, false, ◌&&◌, ◌||◌, leb, nat_eq}

is_lower : ℕ → Bool
is_lower n = leb 97 n && leb n 122

-- `[a-z0-9._-]`
is_scope_char : ℕ → Bool
unfolding is_lower
is_scope_char n = is_lower n || (leb 48 n && leb n 57) || nat_eq n 46 || nat_eq n 95 || nat_eq n 45

-- `[a-z0-9._-]{0,n}$`
scope_rest : ℕ → String → Bool
unfolding is_scope_char
scope_rest n [] = true
scope_rest zero (c ∷ s) = false
scope_rest (suc n) (c ∷ s) = let rest = scope_rest n s in is_scope_char (code c) && rest

-- `/^[a-z][a-z0-9._-]{0,127}$/`
unfoldable pub is_scope : String → Bool
unfolding is_lower scope_rest
is_scope [] = false
is_scope (c ∷ s) = is_lower (code c) && scope_rest 127 s
