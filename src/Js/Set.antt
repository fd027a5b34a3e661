-- ===== src/Js/Set.antt =====
-- `Set<string>`, as the list of its members in the order of insertion.
use oacp.Prelude.{
  String, ◌≡◌, refl, Bool, false, not, ◌&&◌, ◌||◌, List, [], ◌∷◌, ◌++◌, arith, ◌==◌, eq_iff,
  eq_refl, any, all, true, if◌then◌else◌,
}

abbrev pub Set : Type 0
Set = List String

-- `s.has(a)`; `xs.includes(a)` on an array.
unfoldable pub has : List String → String → Bool
has [] a = false
has (x ∷ xs) a = x == a || has xs a

unfoldable pub add : Set → String → Set
unfolding has
add s a = if has s a then s else s ++ a ∷ []

unfoldable pub delete : Set → String → Set
delete [] a = []
delete (x ∷ xs) a = if x == a then delete xs a else x ∷ delete xs a

-- `for (const a of xs) s.add(a)`
unfoldable pub add_all : Set → List String → Set
unfolding add
add_all s [] = s
add_all s (x ∷ xs) = add_all (add s x) xs

-- `new Set(xs)`
unfoldable pub of_list : List String → Set
unfolding add_all
of_list xs = add_all [] xs

pub has-append : (xs ys : List String) (a : String) → has (xs ++ ys) a ≡ (has xs a || has ys a)
unfolding has
has-append [] ys a = refl
has-append (x ∷ xs) ys a = ground (arith, has-append xs ys a)

pub has-add : (s : Set) (a b : String) → has (add s a) b ≡ (a == b || has s b)
unfolding add has
has-add s a b = ground (arith, has-append s (a ∷ []) b, eq_iff a b)

pub has-delete : (s : Set) (a b : String) → has (delete s a) b ≡ (not (a == b) && has s b)
unfolding has delete
has-delete [] a b = ground arith
has-delete (x ∷ xs) a b = ground (arith, has-delete xs a b, eq_iff x a, eq_iff x b, eq_iff a b)

pub has-add_all :
    (s : Set) (xs : List String) (b : String) → has (add_all s xs) b ≡ (has s b || has xs b)
unfolding add_all has
has-add_all s [] b = ground arith
has-add_all s (x ∷ xs) b = ground (arith, has-add_all (add s x) xs b, has-add s x b)

pub has-of_list : (xs : List String) (b : String) → has (of_list xs) b ≡ has xs b
unfolding of_list
has-of_list xs b = has-add_all [] xs b

pub has-any : (xs : List String) (a : String) → has xs a ≡ any (λ x. x == a) xs
unfolding has
has-any [] a = refl
has-any (x ∷ xs) a = ground (arith, has-any xs a)

pub all-of_has :
    (p : String → Bool) (xs : List String)
    → ((a : String) → has xs a ≡ true → p a ≡ true)
    → all p xs ≡ true
unfolding has
all-of_has p [] h = refl
all-of_has p (x ∷ xs) h =
    ground (arith, h x, eq_refl x, all-of_has p xs (λ a m. h a (ground (arith, m))))

pub has-of_all :
    (p : String → Bool) (xs : List String) (a : String)
    → all p xs ≡ true
    → has xs a ≡ true
    → p a ≡ true
unfolding has
has-of_all p [] a h m = cc
has-of_all p (x ∷ xs) a h m = ground (arith, eq_iff x a, has-of_all p xs a)

pub ruleset set_laws = (has-add, has-delete, has-of_list)
