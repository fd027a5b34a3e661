-- ===== src/Workflow/Batches/Counts.antt =====
-- Counting in lists of step ids.
use oacp.Prelude.{
  ℕ, suc, ◌+◌, ◌≤◌, String, ◌≡◌, refl, Bool, true, false, not, ◌&&◌, List, [], ◌∷◌, ◌++◌, arith,
  ◌==◌, eq_iff, length, all, if◌then◌else◌, nat_eq,
}
use oacp.Js.Set
use oacp.Js.Set.{has-append, has-delete}

unfoldable pub count : String → List String → ℕ
count a [] = 0
count a (x ∷ xs) = let rest = count a xs in if x == a then suc rest else rest

-- How many of the texts are not among those that are done.
unfoldable pub missing : List String → List String → ℕ
missing done [] = 0
missing done (x ∷ xs) = let rest = missing done xs in if Set.has done x then rest else suc rest

abbrev pub nodup : List String → Bool
nodup [] = true
nodup (x ∷ xs) = not (Set.has xs x) && nodup xs

pub count-append : (a : String) (xs ys : List String) → count a (xs ++ ys) ≡ count a xs + count a ys
unfolding count
count-append a [] ys = omega arith
count-append a (x ∷ xs) ys = ground (arith, count-append a xs ys)

pub missing-nil : (xs : List String) → missing [] xs ≡ length xs
unfolding missing Set.has
missing-nil [] = refl
missing-nil (x ∷ xs) = ground (arith, missing-nil xs)

pub missing-concat :
    (done : List String) (c : String) (xs : List String)
    → Set.has done c ≡ false
    → missing done xs ≡ missing (done ++ c ∷ []) xs + count c xs
unfolding missing count Set.has
missing-concat done c [] h = refl
missing-concat done c (x ∷ xs) h =
    ground (arith, missing-concat done c xs h, has-append done (c ∷ []) x, eq_iff c x, eq_iff x c)

pub missing-zero : (done xs : List String) → nat_eq (missing done xs) 0 ≡ all (Set.has done) xs
unfolding missing
missing-zero done [] = refl
missing-zero done (x ∷ xs) = ground (arith, missing-zero done xs)

pub nodup-append :
    (xs : List String) (c : String) (ys : List String)
    → nodup (xs ++ c ∷ ys) ≡ true
    → Set.has xs c ≡ false
unfolding Set.has
nodup-append [] c ys h = refl
nodup-append (x ∷ xs) c ys h =
    ground (arith, nodup-append xs c ys, has-append xs (c ∷ ys) x, eq_iff c x, eq_iff x c)

pub nodup-concat :
    (xs : List String) (c : String)
    → nodup xs ≡ true
    → Set.has xs c ≡ false
    → nodup (xs ++ c ∷ []) ≡ true
unfolding Set.has
nodup-concat [] c h k = refl
nodup-concat (x ∷ xs) c h k =
    ground (arith, nodup-concat xs c, has-append xs (c ∷ []) x, eq_iff c x, eq_iff x c)

length-delete : (ys : List String) (x : String) → length (Set.delete ys x) ≤ length ys
unfolding Set.delete
length-delete [] x = omega arith
length-delete (y ∷ ys) x = ground (arith, length-delete ys x)

length-delete-has :
    (ys : List String) (x : String)
    → Set.has ys x ≡ true
    → suc (length (Set.delete ys x)) ≤ length ys
unfolding Set.delete Set.has
length-delete-has [] x h = ground arith
length-delete-has (y ∷ ys) x h = ground (arith, length-delete ys x, length-delete-has ys x)

all-delete :
    (xs ys : List String) (x : String)
    → Set.has xs x ≡ false
    → all (Set.has ys) xs ≡ true
    → all (Set.has (Set.delete ys x)) xs ≡ true
unfolding Set.has
all-delete [] ys x h k = refl
all-delete (z ∷ xs) ys x h k =
    ground (arith, all-delete xs ys x, has-delete ys x z, eq_iff z x, eq_iff x z)

-- Texts without repetition are at most as many as those that they are among.
pub length-nodup :
    (xs ys : List String) → nodup xs ≡ true → all (Set.has ys) xs ≡ true → length xs ≤ length ys
length-nodup [] ys h k = omega arith
length-nodup (x ∷ xs) ys h k =
    ground (arith, length-nodup xs (Set.delete ys x), all-delete xs ys x, length-delete-has ys x)
