-- ===== src/Js/Collation.antt =====
-- The two orders on texts by which the source sorts. They belong to the host: `localeCompare`
-- follows its locale, and the default of `sort()` compares UTF-16 code units.
use oacp.Prelude.{String, Bool, true, ◌≡◌, ◌⊎◌}

pub record Collation : Type 0 where
  -- `a.localeCompare(b) <= 0`
  pub locale_le : String → String → Bool
  -- whether the default `sort()` may leave `a` before `b`
  pub code_unit_le : String → String → Bool

-- What a comparison has to satisfy for `sort` to be meaningful.
pub record IsTotalPreorder (le : String → String → Bool) : Type 0 where
  pub total : (a b : String) → (le a b ≡ true) ⊎ (le b a ≡ true)
  pub trans : (a b c : String) → le a b ≡ true → le b c ≡ true → le a c ≡ true
