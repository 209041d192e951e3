-- ===== src/Utils/Lru.antt =====
-- src/utils/lru-map.ts. The base class `Map` is the table of the entries in the order of insertion. A
-- stored value is never `undefined`.
pub mod Eviction
use cli_model_gateway.Base.{
  ℕ, zero, suc, ◌+◌, ◌-◌, ◌*◌, ◌/◌, ◌%◌, ◌<◌, ◌≤◌, min, max, ◌≡◌, ◌≢◌, refl, sym, ap, ◌∙◌, subst,
  String, Bool, true, false, not, ◌&&◌, ◌||◌, Option, none, some, [], ◌∷◌, ◌++◌, map, List, arith,
  leb, ltb, ◌==◌, ◌!=◌, ==_iff, ==_refl, if◌then◌else◌, Table, Each, keys, values, get, set, has,
  delete, Outcome, Act, pure, ◌>>=◌, ◌>>◌, returns, throws, after, get-set, get-set_self,
  get-delete, get-has, has-get, length-set, length-delete-le, get-set_cases, get-none-has,
  has-set_lem, has-delete, Each-mono, Each-values, has-Each, IsUnique, set-IsUnique, find-get,
  find-get-none, Each-set, Each-delete, Each-get, Bool-cases, Option-cases, inl, inr, ◌⊎◌, ◌↔◌,
  nat_eq, string_eq, Eq, length, any, all, filter, codes, between, is_upper, is_lower, is_digit,
  Extends, starts, starts-Extends, anywhere, anywhere-append_left, anywhere-Extends, find,
  get_last?, get_elem?, take, drop, All, All-append, All-filter, All-find, length-append,
  length-drop, length-filter-le, find_holds, ltb→lt, leb→le,
}

module _ {K : Type 0} {V : Type 0} ⦃e : Eq K⦄ where
  -- The `get` of the map: a key that is found moves to the end.
  abbrev pub touched : K → Option V → Table K V → Table K V
  touched k none t = t
  touched k (some v) t = delete k t ++ (k, v) ∷ []

  unfoldable pub lru_get : K → Table K V → Option V × Table K V
  lru_get k t = (get k t, touched k (get k t) t)

  abbrev pub lru_peek : K → Table K V → Option V
  lru_peek k t = get k t

module _ {K : Type 0} {V : Type 0} where
  -- The loop that deletes the first key while there are more than `most` entries.
  unfoldable pub evict : ℕ → Table K V → Table K V
  evict most [] = []
  evict most (x ∷ t) = if ltb most (length (x ∷ t)) then evict most t else x ∷ t

-- `Math.max(1, maxSize)`
abbrev pub capacity : ℕ → ℕ
capacity max_size = if leb max_size 1 then 1 else max_size

module _ {K : Type 0} {V : Type 0} ⦃e : Eq K⦄ where
  unfoldable pub lru_set : ℕ → K → V → Table K V → Table K V
  unfolding evict
  lru_set max_size k v t = evict (capacity max_size) (delete k t ++ (k, v) ∷ [])
