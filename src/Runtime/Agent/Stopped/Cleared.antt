-- ===== src/Runtime/Agent/Stopped/Cleared.antt =====
-- Timers that core/src/runtime/agent-runtime.ts clears.
use oacp.Prelude.{
  ℕ, zero, suc, String, ◌≡◌, refl, ◌∙◌, true, false, some, List, [], ◌∷◌, any, get_elem?, set,
  get_elem?-set-some, nat_eq, arith, Bool-cases, Option-cases, inl, inr, subst,
}
use oacp.Js.Map
use oacp.Js.Map.{Map}
use oacp.Runtime.Agent.{ResponseWait, cleared, update_wait, clear_timers}

pub get_elem?-set-other :
    (ws : List ResponseWait) (j k : ℕ) (v : ResponseWait)
    → nat_eq j k ≡ false
    → get_elem? (set ws j v) k ≡ get_elem? ws k
get_elem?-set-other [] j k v h = refl
get_elem?-set-other (x ∷ ws) zero zero v h = absurd (ground (arith, h))
get_elem?-set-other (x ∷ ws) zero (suc k) v h = refl
get_elem?-set-other (x ∷ ws) (suc j) zero v h = refl
get_elem?-set-other (x ∷ ws) (suc j) (suc k) v h = get_elem?-set-other ws j k v (ground (arith, h))

-- The promise at a place, after the one at a place was cleared.
update_wait-same :
    (k : ℕ) (ws : List ResponseWait) (w : ResponseWait)
    → get_elem? ws k ≡ some w
    → get_elem? (update_wait cleared k ws) k ≡ some (cleared w)
unfolding update_wait
update_wait-same k ws w h = rw (h, update_wait) (get_elem?-set-some ws k w (cleared w) h)

update_wait-other :
    (j k : ℕ) (ws : List ResponseWait)
    → nat_eq j k ≡ false
    → get_elem? (update_wait cleared j ws) k ≡ get_elem? ws k
unfolding update_wait
update_wait-other j k ws h = elim (Option-cases (get_elem? ws j)) [
  | inl out ↦ rw (out, update_wait) refl
  | inr (v, e) ↦ rw (e, update_wait) (get_elem?-set-other ws j k (cleared v) h)
]

update_wait-cleared :
    (j k : ℕ) (ws : List ResponseWait) (w : ResponseWait)
    → get_elem? ws k ≡ some (cleared w)
    → get_elem? (update_wait cleared j ws) k ≡ some (cleared w)
update_wait-cleared j k ws w h = elim (Bool-cases (nat_eq j k)) [
  | inr other ↦ update_wait-other j k ws other ∙ h
  | inl same ↦
      let at : k ≡ j = ground (arith, same) in
      subst (λ n. get_elem? (update_wait cleared n ws) k ≡ some (cleared w)) at
        (update_wait-same k ws (cleared w) h)
]

clear_timers-cleared :
    (ks : List ℕ) (k : ℕ) (ws : List ResponseWait) (w : ResponseWait)
    → get_elem? ws k ≡ some (cleared w)
    → get_elem? (clear_timers ks ws) k ≡ some (cleared w)
unfolding clear_timers
clear_timers-cleared [] k ws w h = h
clear_timers-cleared (j ∷ ks) k ws w h =
    clear_timers-cleared ks k (update_wait cleared j ws) w (update_wait-cleared j k ws w h)

-- Clearing the timers of some promises clears each of them.
pub clear_timers-any :
    (ks : List ℕ) (k : ℕ) (ws : List ResponseWait) (w : ResponseWait)
    → any (λ j. nat_eq j k) ks ≡ true
    → get_elem? ws k ≡ some w
    → get_elem? (clear_timers ks ws) k ≡ some (cleared w)
unfolding clear_timers
clear_timers-any [] k ws w m h = absurd (ground (arith, m))
clear_timers-any (j ∷ ks) k ws w m h = elim (Bool-cases (nat_eq j k)) [
  | inl same ↦
      let at : k ≡ j = ground (arith, same) in
      subst (λ n. get_elem? (clear_timers ks (update_wait cleared n ws)) k ≡ some (cleared w)) at
        (clear_timers-cleared ks k (update_wait cleared k ws) w (update_wait-same k ws w h))
  | inr other ↦
      clear_timers-any ks k (update_wait cleared j ws) w (ground (arith, m, other))
        (update_wait-other j k ws other ∙ h)
]

pub any-values :
    (m : Map ℕ) (id : String) (k : ℕ)
    → Map.get m id ≡ some k
    → any (λ j. nat_eq j k) (Map.values m) ≡ true
unfolding Map.get
any-values [] id k h = absurd (ground (arith, h))
any-values ((i, j) ∷ m) id k h = ground (arith, h, any-values m id k)
