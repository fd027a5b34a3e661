-- ===== src/Runtime/Agent/Correlation/Waits.antt =====
-- The promises of core/src/runtime/agent-runtime.ts and the table that leads to them.
use oacp.Prelude.{
  ℕ, zero, suc, String, ◌≡◌, refl, sym, ap, ◌∙◌, Option, some, List, [], ◌∷◌, ◌++◌, or_else, map,
  length, get_elem?, set, arith, Option-cases, inl, inr, All, All-set, All-get,
}
use oacp.Js.Map
use oacp.Js.Map.{Map}
use oacp.Protocol.Messages.{TaskResponseMessage}
use oacp.Runtime.Agent.{ResponseWait, AgentRuntime, resolved, cleared, update_wait}

-- A promise that holds a response holds one to its message.
unfoldable pub IsAnswered : ResponseWait → Type 0
IsAnswered w = (r : TaskResponseMessage) → w.settled ≡ some (some r) → r.in_reply_to ≡ w.message_id

abbrev pub names : List ResponseWait → List String
names = map (λ w. w.message_id)

-- The table leads from the id of a message to the promise of its response.
pub record IsCorrelated (a : AgentRuntime) : Type 0 where
  pub tracked :
      (id : String) (k : ℕ)
      → Map.get a.pending_responses id ≡ some k
      → get_elem? (names a.waits) k ≡ some id
  pub answered : All IsAnswered a.waits

pub get_elem?-names :
    (ws : List ResponseWait) (k : ℕ) (w : ResponseWait)
    → get_elem? ws k ≡ some w
    → get_elem? (names ws) k ≡ some w.message_id
get_elem?-names [] k w h = absurd (ground (arith, h))
get_elem?-names (x ∷ ws) zero w h =
    ap (λ (o : Option ResponseWait). some (or_else o x).message_id) h
get_elem?-names (x ∷ ws) (suc k) w h = get_elem?-names ws k w h

pub names-set :
    (ws : List ResponseWait) (k : ℕ) (w v : ResponseWait)
    → get_elem? ws k ≡ some w
    → v.message_id ≡ w.message_id
    → names (set ws k v) ≡ names ws
names-set [] k w v h e = refl
names-set (x ∷ ws) zero w v h e =
    ap (λ l. l ∷ names ws) (e ∙ sym (ap (λ (o : Option ResponseWait). (or_else o x).message_id) h))
names-set (x ∷ ws) (suc k) w v h e = ap (λ l. x.message_id ∷ l) (names-set ws k w v h e)

pub names-append :
    (ws : List ResponseWait) (w : ResponseWait)
    → names (ws ++ w ∷ []) ≡ names ws ++ w.message_id ∷ []
names-append [] w = refl
names-append (x ∷ ws) w = ap (λ l. x.message_id ∷ l) (names-append ws w)

pub get_elem?-append {ℓ} :
    {A : Type ℓ} (xs : List A) (k : ℕ) (x y : A)
    → get_elem? xs k ≡ some y
    → get_elem? (xs ++ x ∷ []) k ≡ some y
get_elem?-append [] k x y h = absurd (ground (arith, h))
get_elem?-append (z ∷ xs) zero x y h = h
get_elem?-append (z ∷ xs) (suc k) x y h = get_elem?-append xs k x y h

pub get_elem?-length :
    (ws : List ResponseWait) (x : String) → get_elem? (names ws ++ x ∷ []) (length ws) ≡ some x
get_elem?-length [] x = refl
get_elem?-length (w ∷ ws) x = get_elem?-length ws x

-- A change that keeps the name of a promise.
pub update_wait-names :
    (f : ResponseWait → ResponseWait) (k : ℕ) (ws : List ResponseWait)
    → ((w : ResponseWait) → (f w).message_id ≡ w.message_id)
    → names (update_wait f k ws) ≡ names ws
unfolding update_wait
update_wait-names f k ws h = elim (Option-cases (get_elem? ws k)) [
  | inl out ↦ rw (out, update_wait) refl
  | inr (w, e) ↦ rw (e, update_wait) (names-set ws k w (f w) e (h w))
]

pub update_wait-answered :
    (f : ResponseWait → ResponseWait) (k : ℕ) (ws : List ResponseWait)
    → ((w : ResponseWait) → get_elem? ws k ≡ some w → IsAnswered w → IsAnswered (f w))
    → All IsAnswered ws
    → All IsAnswered (update_wait f k ws)
unfolding update_wait
update_wait-answered f k ws h v = elim (Option-cases (get_elem? ws k)) [
  | inl out ↦ rw (out, update_wait) v
  | inr (w, e) ↦
      rw (e, update_wait) (All-set IsAnswered ws k (f w) (h w e (All-get IsAnswered ws k w e v)) v)
]

pub cleared-IsAnswered : (w : ResponseWait) → IsAnswered w → IsAnswered (cleared w)
unfolding IsAnswered
cleared-IsAnswered w h = h

pub resolved-IsAnswered :
    (o : Option TaskResponseMessage) (w : ResponseWait)
    → ((r : TaskResponseMessage) → o ≡ some r → r.in_reply_to ≡ w.message_id)
    → IsAnswered w
    → IsAnswered (resolved o w)
unfolding IsAnswered
resolved-IsAnswered o w h v r e = elim (Option-cases w.settled) [
  | inl open_wait ↦ h r (
      some_inj
        (sym (ap (λ (s : Option (Option TaskResponseMessage)). some (or_else s o)) open_wait) ∙ e))
  | inr (s, p) ↦
      v r (p ∙ sym (ap (λ (t : Option (Option TaskResponseMessage)). some (or_else t o)) p) ∙ e)
]
  where
    some_inj : {x y : Option TaskResponseMessage} → some x ≡ some y → x ≡ y
    some_inj {x} p = ap (λ (t : Option (Option TaskResponseMessage)). or_else t x) p
