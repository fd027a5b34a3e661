-- ===== src/Memory/Graph/Order/Degrees.antt =====
-- Degrees that go down, and the ids that may still be queued in the order of core/src/memory/delegation-graph-builder.ts.
use oacp.Prelude.{
  ℕ, zero, suc, ◌≤◌, ◌<◌, String, ◌≡◌, refl, Bool, true, false, Option, none, some, List, [], ◌∷◌,
  ◌++◌, length, all, or_else, if◌then◌else◌, arith, eq_iff,
}
use oacp.Js.Map
use oacp.Js.Map.{Map}
use oacp.Js.Set
use oacp.Js.Set.{has-add, has-append}
use oacp.Workflow.Batches.{Degree, at, below, decrement, is_zero, Frontier}
use oacp.Workflow.Batches.Counts.{nodup}

-- A child may still be queued: its degree is positive, or is not there, which counts as 1.
abbrev pub is_positive : Option Degree → Bool
is_positive none = true
is_positive (some (at zero)) = false
is_positive (some (at (suc n))) = true
is_positive (some (below n)) = false

pub waiting : List String → Map Degree → ℕ
waiting [] d = 0
waiting (u ∷ us) d = if is_positive (Map.get d u) then suc (waiting us d) else waiting us d

pub waiting-length : (us : List String) (d : Map Degree) → waiting us d ≤ length us
unfolding waiting
waiting-length [] d = omega arith
waiting-length (u ∷ us) d = ground (arith, waiting-length us d)

-- One degree goes down, and is no more positive than it was.
pub waiting-set_le :
    (us : List String) (d : Map Degree) (c : String) (v : Degree)
    → (is_positive (some v) ≡ true → is_positive (Map.get d c) ≡ true)
    → waiting us (Map.set d c v) ≤ waiting us d
unfolding waiting
waiting-set_le [] d c v h = omega arith
waiting-set_le (u ∷ us) d c v h =
    ground (arith, waiting-set_le us d c v h, Map.get-set d c u v, eq_iff c u, h)

pub waiting-set_lt :
    (us : List String) (d : Map Degree) (c : String) (v : Degree)
    → Set.has us c ≡ true
    → is_positive (Map.get d c) ≡ true
    → is_positive (some v) ≡ false
    → waiting us (Map.set d c v) < waiting us d
unfolding waiting Set.has
waiting-set_lt [] d c v m p n = absurd (ground (arith, m))
waiting-set_lt (u ∷ us) d c v m p n = ground (
  arith,
  waiting-set_lt us d c v,
  waiting-set_le us d c v (λ h. p),
  Map.get-set d c u v,
  eq_iff c u,
  eq_iff u c,
  m,
  p,
  n,
)

-- What holds between two rounds of the queue: each id stands once, those in the order or the queue are not
-- waited for, and all are known.
pub record IsQueued (us order : List String) (f : Frontier) : Type 0 where
  pub unique : nodup (order ++ f.next_queue) ≡ true
  pub inside : all (Set.has us) (order ++ f.next_queue) ≡ true
  pub settled :
      (x : String)
      → is_positive (Map.get f.in_degree x) ≡ true
      → Set.has (order ++ f.next_queue) x ≡ false

-- A degree that is lowered, and whether its child is queued.
abbrev pub lowered : Option Degree → Degree
lowered o = decrement (or_else o (at 1))

pub lowered-is_zero :
    (o : Option Degree)
    → is_zero (lowered o) ≡ true
    → (is_positive o ≡ true) × (is_positive (some (lowered o)) ≡ false)
unfolding decrement
lowered-is_zero none h = (refl, refl)
lowered-is_zero (some (at zero)) h = absurd (ground (arith, h))
lowered-is_zero (some (at (suc zero))) h = (refl, refl)
lowered-is_zero (some (at (suc (suc n)))) h = absurd (ground (arith, h))
lowered-is_zero (some (below n)) h = absurd (ground (arith, h))

pub lowered-is_positive :
    (o : Option Degree) → is_positive (some (lowered o)) ≡ true → is_positive o ≡ true
unfolding decrement
lowered-is_positive none h = refl
lowered-is_positive (some (at zero)) h = absurd (ground (arith, h))
lowered-is_positive (some (at (suc n))) h = refl
lowered-is_positive (some (below n)) h = absurd (ground (arith, h))
