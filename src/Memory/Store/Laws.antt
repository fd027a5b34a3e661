-- ===== src/Memory/Store/Laws.antt =====
-- What the store of core/src/memory/in-memory-store.ts keeps and answers.
use oacp.Prelude.{
  ℕ, String, ◌≡◌, refl, ◌∙◌, true, false, ◌||◌, some, List, [], ◌∷◌, arith, ◌==◌, Bool-cases, inl,
  inr, filter, drop, take, if◌then◌else◌, any, ◌⊎◌,
}
use mathlib.Core.List.{Perm}
use oacp.Js.Map
use oacp.Js.Set
use oacp.Js.Sort.{sort, sort-perm, sort-sorted, sorted, has-sort}
use oacp.Js.Collation.{Collation, IsTotalPreorder}
use oacp.Protocol.Errors.{ok, err}
use oacp.Memory.Types.{MemoryEntryInput, MemoryEntry, MemoryQuery}
use oacp.Memory.Store.{
  MemoryStore, closed_error, append, get, matches_query, by_created_at, query, scopes_of,
  list_scopes,
}

-- An entry that was appended is got by its id, and what was got by another id stays; a closed store appends
-- and gets nothing.
pub get-append :
    (id now : String) (input : MemoryEntryInput) (s : MemoryStore)
    → (s.closed ≡ true)
        × (append id now input s ≡ err closed_error)
        × ((j : String) → get s j ≡ err closed_error)
      ⊎ ((e : MemoryEntry) × (next : MemoryStore) × (append id now input s ≡ ok (e, next))
          × (e.content ≡ input)
          × ((j : String) → get next j ≡ (if id == j then ok (some e) else get s j)))
unfolding append get
get-append id now input s = elim (Bool-cases s.closed) [
  | inl shut ↦ inl (shut, rw shut refl, λ j. rw shut refl)
  | inr opened ↦
      let e : MemoryEntry = record { id = id; created_at = now; content = input } in
      inr (
        e,
        record s { entries = Map.set s.entries id e },
        rw opened refl,
        refl,
        λ j. rw opened (ground (arith, Map.get-set s.entries id j e)),
      )
]

-- The queries that differ only in their limit and offset answer the pages of one list: the entries that
-- match, in the order of their times. A closed store answers none.
pub query_pages :
    (c : Collation) (q : MemoryQuery) (s : MemoryStore)
    → IsTotalPreorder c.locale_le
    → (s.closed ≡ true) × (query c q s ≡ err closed_error)
      ⊎ ((entries : List MemoryEntry) × Perm entries
            (filter (matches_query c q) (Map.values s.entries))
          × (sorted (by_created_at c) entries ≡ true)
          × ((limit offset : ℕ)
              → query c (record q { limit = some limit; offset = some offset }) s
                ≡ ok (take limit (drop offset entries))))
unfolding query matches_query
query_pages c q s o = elim (Bool-cases s.closed) [
  | inl shut ↦ inl (shut, rw shut refl)
  | inr opened ↦
      let found : List MemoryEntry = filter (matches_query c q) (Map.values s.entries) in
      inr (
        sort (by_created_at c) found,
        sort-perm (by_created_at c) found,
        sort-sorted (by_created_at c) (λ a b. o.total a.created_at b.created_at)
            (λ a b d. o.trans a.created_at b.created_at d.created_at) found,
        λ limit offset. rw opened refl,
      )
]

has-scopes_of :
    (c : Collation) (es : List MemoryEntry) (s : Set.Set) (a : String)
    → Set.has (scopes_of c es s) a ≡ (Set.has s a || any (λ e. e.scope == a) es)
unfolding scopes_of
has-scopes_of c [] s a = ground arith
has-scopes_of c (e ∷ es) s a =
    ground (arith, has-scopes_of c es (Set.add s e.scope) a, Set.has-add s e.scope a)

-- The scopes of an open store are exactly those of its entries, sorted.
pub list_scopes_lem :
    (c : Collation) (s : MemoryStore)
    → IsTotalPreorder c.code_unit_le
    → s.closed ≡ false
    → (scopes : List String) × (list_scopes c s ≡ ok scopes)
      × (sorted c.code_unit_le scopes ≡ true)
      × ((a : String) → Set.has scopes a ≡ any (λ e. e.scope == a) (Map.values s.entries))
unfolding list_scopes
list_scopes_lem c s o opened = (
  sort c.code_unit_le (scopes_of c (Map.values s.entries) []),
  rw opened refl,
  sort-sorted c.code_unit_le o.total o.trans (scopes_of c (Map.values s.entries) []),
  λ a.
      unfold Set.has in
      has-sort c.code_unit_le (scopes_of c (Map.values s.entries) []) a
      ∙ has-scopes_of c (Map.values s.entries) [] a,
)
