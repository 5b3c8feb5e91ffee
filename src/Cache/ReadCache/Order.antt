-- ===== src/Cache/ReadCache/Order.antt =====
-- What the eviction of plugin/src/cache/ReadCache.ts leaves, and what can be read after a `put`.
use obsidian_remote_ssh.Prelude.{
  ℕ, ◌+◌, ◌-◌, List, [], ◌∷◌, ◌++◌, if◌then◌else◌, leb, Str, str_eq, none, some, length, ◌≡◌, ◌≤◌,
  arith, refl, ◌∙◌, ap, ◌<◌, ◌≢◌,
}
use obsidian_remote_ssh.JsMap
use obsidian_remote_ssh.JsMap.{IsDistinct, weight, keys}
use obsidian_remote_ssh.JsMap.Laws.{get-delete, get-delete_ne, delete_absent, set_absent}
use obsidian_remote_ssh.Cache.ReadCache.{
  ReadCache, ReadCacheEntry, invalidate, evict_from, evict_if_over_budget, store, put, entry_of,
}
use obsidian_remote_ssh.Cache.ReadCache.Laws.{
  size, IsCounted, IsValid, store-IsCounted, get-invalidate,
}

-- The longest end of a list of entries that fits into the budget.
unfoldable pub fit : ℕ → List (Str × ReadCacheEntry) → List (Str × ReadCacheEntry)
fit budget [] = []
fit budget (e ∷ es) = if leb (weight size (e ∷ es)) budget then e ∷ es else fit budget es

pub weight-fit :
    (budget : ℕ) (es : List (Str × ReadCacheEntry)) → weight size (fit budget es) ≤ budget
unfolding fit
weight-fit budget [] = omega arith
weight-fit budget (e ∷ es) = ground (arith, weight-fit budget es)

length-fit : (budget : ℕ) (es : List (Str × ReadCacheEntry)) → length (fit budget es) ≤ length es
unfolding fit
length-fit budget [] = omega arith
length-fit budget (e ∷ es) = ground (arith, length-fit budget es)

fit_of_le :
    (budget : ℕ) (es : List (Str × ReadCacheEntry)) → weight size es ≤ budget → fit budget es ≡ es
unfolding fit
fit_of_le budget [] h = refl
fit_of_le budget (e ∷ es) h = ground arith

get-fit_absent :
    (q : Str) (budget : ℕ) (es : List (Str × ReadCacheEntry))
    → JsMap.get q es ≡ none
    → JsMap.get q (fit budget es) ≡ none
unfolding fit JsMap.get
get-fit_absent q budget [] h = refl
get-fit_absent q budget ((k, e) ∷ es) h = ground (arith, get-fit_absent q budget es)

fit-IsDistinct :
    (budget : ℕ) (es : List (Str × ReadCacheEntry)) → IsDistinct es → IsDistinct (fit budget es)
unfolding fit
fit-IsDistinct budget [] d = tt
fit-IsDistinct budget (e ∷ es) d = ground (arith, fit-IsDistinct budget es)

-- The cache that holds `es` and has counted it.
abbrev holding : ReadCache → List (Str × ReadCacheEntry) → ℕ → ReadCache
holding c es gone = record c { map = es; bytes = weight size es; evictions = c.evictions + gone }

delete_head :
    (k : Str) (e : ReadCacheEntry) (es : List (Str × ReadCacheEntry))
    → JsMap.delete k ((k, e) ∷ es) ≡ es
unfolding JsMap.delete
delete_head k e es = ground arith

evict_from-fit :
    (c : ReadCache) (es : List (Str × ReadCacheEntry)) (gone : ℕ)
    → evict_from es (holding c es gone)
      ≡ holding c (fit c.max_bytes es) (gone + (length es - length (fit c.max_bytes es)))
unfolding evict_from fit
evict_from-fit c [] gone = ground arith
evict_from-fit c ((k, e) ∷ es) gone =
    ground (arith, delete_head k e es, length-fit c.max_bytes es, evict_from-fit c es (gone + 1))

evict_if_over_budget-fit :
    (c : ReadCache) (es : List (Str × ReadCacheEntry))
    → evict_if_over_budget (holding c es 0)
      ≡ holding c (fit c.max_bytes es) (length es - length (fit c.max_bytes es))
unfolding evict_if_over_budget
evict_if_over_budget-fit c es = ground (arith, fit_of_le c.max_bytes es, evict_from-fit c es 0)

get-append_last :
    (q : Str) (e : ReadCacheEntry) (es : List (Str × ReadCacheEntry))
    → JsMap.get q es ≡ none
    → JsMap.get q (es ++ (q, e) ∷ []) ≡ some e
unfolding JsMap.get
get-append_last q e [] h = ground arith
get-append_last q e ((k, e') ∷ es) h = ground (arith, get-append_last q e es)

get-fit_last :
    (q : Str) (e : ReadCacheEntry) (budget : ℕ) (es : List (Str × ReadCacheEntry))
    → JsMap.get q es ≡ none
    → size e ≤ budget
    → JsMap.get q (fit budget (es ++ (q, e) ∷ [])) ≡ some e
unfolding fit JsMap.get
get-fit_last q e budget [] h k = ground arith
get-fit_last q e budget ((k', e') ∷ es) h k =
    ground (arith, get-fit_last q e budget es, get-append_last q e es)

weight-append_last :
    (q : Str) (e : ReadCacheEntry) (es : List (Str × ReadCacheEntry))
    → size e ≤ weight size (es ++ (q, e) ∷ [])
weight-append_last q e [] = omega arith
weight-append_last q e (e' ∷ es) = omega (arith, weight-append_last q e es)

fit-eq-nil :
    (q : Str) (e : ReadCacheEntry) (budget : ℕ) (es : List (Str × ReadCacheEntry))
    → budget < size e
    → fit budget (es ++ (q, e) ∷ []) ≡ []
unfolding fit
fit-eq-nil q e budget [] h = ground arith
fit-eq-nil q e budget (e' ∷ es) h =
    ground (arith, fit-eq-nil q e budget es, weight-append_last q e es)

get_of_get-fit :
    (q : Str) (budget : ℕ) (es : List (Str × ReadCacheEntry)) (e : ReadCacheEntry)
    → IsDistinct es
    → JsMap.get q (fit budget es) ≡ some e
    → JsMap.get q es ≡ some e
unfolding fit JsMap.get
get_of_get-fit q budget [] e d h = h
get_of_get-fit q budget ((k, e') ∷ es) e d h =
    ground (arith, get_of_get-fit q budget es e, get-fit_absent k budget es)

get-append_ne :
    (q k : Str) (e : ReadCacheEntry) (es : List (Str × ReadCacheEntry))
    → k ≢ q
    → JsMap.get q (es ++ (k, e) ∷ []) ≡ JsMap.get q es
unfolding JsMap.get
get-append_ne q k e [] h = ground arith
get-append_ne q k e ((k', e') ∷ es) h = ground (arith, get-append_ne q k e es)

map-invalidate : (c : ReadCache) (path : Str) → (invalidate c path).map ≡ JsMap.delete path c.map
unfolding invalidate
map-invalidate c path = ground (arith, delete_absent path c.map)

-- The entries in the order of their use, with `path` used last.
abbrev pub used_last :
    Str → ReadCacheEntry → List (Str × ReadCacheEntry) → List (Str × ReadCacheEntry)
used_last path e m = JsMap.delete path m ++ (path, e) ∷ []

-- What the eviction leaves alone.
record IsSameBut (c c' : ReadCache) : Type 0 where
  hits : c'.hits ≡ c.hits
  misses : c'.misses ≡ c.misses
  evictions : c'.evictions ≡ c.evictions
  max_bytes : c'.max_bytes ≡ c.max_bytes

module _ (c : ReadCache) (path : Str) (content : List ℕ) (mtime : ℕ) where
  store-IsSameBut : IsSameBut c (store c path content mtime)
  unfolding store invalidate
  store-IsSameBut = ground arith

  -- The entries that stay after a `put`: the longest end that fits of the entries in the order of
  -- their use, the new one last.
  abbrev pub kept : List (Str × ReadCacheEntry)
  kept = fit c.max_bytes (used_last path (entry_of content mtime) c.map)

  module _ (h : IsCounted c) where
    map-store : (store c path content mtime).map ≡ used_last path (entry_of content mtime) c.map
    unfolding store
    map-store =
        set_absent path (entry_of content mtime) (invalidate c path).map
          (get-invalidate c path path h.distinct ∙ ground arith)
        ∙ ap (λ m. m ++ (path, entry_of content mtime) ∷ []) (map-invalidate c path)

    store-holding :
        store c path content mtime ≡ holding c (used_last path (entry_of content mtime) c.map) 0
    store-holding =
        let m = map-store in
        let same = store-IsSameBut in
        let b = (store-IsCounted c path content mtime h).counted ∙ ap (weight size) m in
        let v : (store c path content mtime).evictions ≡ c.evictions + 0 =
          omega (arith, same.evictions) in
        λ i. record {
          map = m i;
          bytes = b i;
          hits = same.hits i;
          misses = same.misses i;
          evictions = v i;
          max_bytes = same.max_bytes i;
        }

    -- A `put` makes `path` the most recently used entry and drops the least recently used ones,
    -- no more than the budget asks for; `evictions` counts them.
    pub put-holding : put c path content mtime ≡ record c {
      map = kept;
      bytes = weight size kept;
      evictions =
          c.evictions + (length (used_last path (entry_of content mtime) c.map) - length kept);
    }
    unfolding put
    put-holding =
        ap evict_if_over_budget store-holding
        ∙ evict_if_over_budget-fit c (used_last path (entry_of content mtime) c.map)

    -- After a `put` the contents fit the budget, and the books are right.
    pub put-IsValid : IsValid (put c path content mtime)
    put-IsValid =
        let distinct' : IsDistinct kept =
          fit-IsDistinct c.max_bytes _
            (rw (← map-store) (store-IsCounted c path content mtime h).distinct) in
        rw put-holding (record {
          books = record { distinct = distinct'; counted = refl };
          within = weight-fit c.max_bytes (used_last path (entry_of content mtime) c.map);
        })

    get-delete_self : JsMap.get path (JsMap.delete path c.map) ≡ none
    get-delete_self = get-delete path path c.map h.distinct ∙ ground arith

    -- A file that fits the budget can be read back right after its `put`.
    pub get-put_self :
        length content ≤ c.max_bytes
        → JsMap.get path (put c path content mtime).map ≡ some (entry_of content mtime)
    get-put_self k = rw put-holding (
        get-fit_last path (entry_of content mtime) c.max_bytes (JsMap.delete path c.map)
          get-delete_self k)

    -- One that does not fit empties the cache, the new entry included.
    pub map-put_too_large : c.max_bytes < length content → (put c path content mtime).map ≡ []
    map-put_too_large k =
        rw put-holding
          (fit-eq-nil path (entry_of content mtime) c.max_bytes (JsMap.delete path c.map) k)

    -- Whatever another path reads after a `put`, it read before.
    pub get-put_ne :
        (q : Str) (e : ReadCacheEntry)
        → path ≢ q
        → JsMap.get q (put c path content mtime).map ≡ some e
        → JsMap.get q c.map ≡ some e
    get-put_ne q e other found =
        let found' = rw put-holding at found in
        let distinct' = rw (map-store) at (store-IsCounted c path content mtime h).distinct in
        ground (
          arith,
          get_of_get-fit q c.max_bytes (used_last path (entry_of content mtime) c.map) e distinct'
              found',
          get-append_ne q path (entry_of content mtime) (JsMap.delete path c.map) other,
          get-delete_ne path q c.map other,
        )
