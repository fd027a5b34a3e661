-- ===== src/Memory/Graph/Depth/Unseen.antt =====
-- How many ids a walk over a graph of core/src/memory/delegation-graph-builder.ts may still visit.
use oacp.Prelude.{
  ℕ, suc, ◌≤◌, ◌<◌, String, ◌≡◌, true, false, List, [], ◌∷◌, length, if◌then◌else◌, arith, eq_iff,
}
use oacp.Js.Set

-- How many of some ids are not visited.
pub unseen : List String → Set.Set → ℕ
unseen [] visited = 0
unseen (u ∷ us) visited = if Set.has visited u then unseen us visited else suc (unseen us visited)

pub unseen-length : (us : List String) (visited : Set.Set) → unseen us visited ≤ length us
unfolding unseen
unseen-length [] visited = omega arith
unseen-length (u ∷ us) visited = ground (arith, unseen-length us visited)

unseen-add_le :
    (us : List String) (visited : Set.Set) (a : String)
    → unseen us (Set.add visited a) ≤ unseen us visited
unfolding unseen
unseen-add_le [] visited a = omega arith
unseen-add_le (u ∷ us) visited a =
    ground (arith, unseen-add_le us visited a, Set.has-add visited a u)

pub unseen-add_lt :
    (us : List String) (visited : Set.Set) (a : String)
    → Set.has us a ≡ true
    → Set.has visited a ≡ false
    → unseen us (Set.add visited a) < unseen us visited
unfolding unseen Set.has
unseen-add_lt [] visited a h k = absurd (ground (arith, h))
unseen-add_lt (u ∷ us) visited a h k = ground (
  arith,
  unseen-add_lt us visited a,
  unseen-add_le us visited a,
  Set.has-add visited a u,
  eq_iff u a,
  eq_iff a u,
  h,
  k,
)
