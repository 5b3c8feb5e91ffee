-- ===== src/Cache/ReadCache/Prefix.antt =====
-- `invalidatePrefix` of plugin/src/cache/ReadCache.ts.
use obsidian_remote_ssh.Prelude.{
  ℕ, ◌+◌, ◌-◌, List, [], ◌∷◌, if◌then◌else◌, Str, str_eq, none, length, ◌≡◌, arith, refl,
  Option-cases, inl, inr, ==_iff, ◌&&◌,
}
use obsidian_remote_ssh.JsMap
use obsidian_remote_ssh.JsMap.{IsDistinct, keys}
use obsidian_remote_ssh.JsMap.Laws.{get-delete, delete-IsDistinct, length-delete}
use obsidian_remote_ssh.Cache.{covers, visits, visits-keys}
use obsidian_remote_ssh.Cache.ReadCache.{ReadCache, invalidate_keys, invalidate_prefix}

-- The loop removes what it visits under the prefix, and nothing else.
get-invalidate_keys :
    (prefix : Str) (ks : List Str) (c : ReadCache) (n : ℕ) (q : Str)
    → IsDistinct c.map
    → JsMap.get q (invalidate_keys prefix ks c n).0.map
      ≡ (if covers prefix q && visits ks q then none else JsMap.get q c.map)
unfolding invalidate_keys
get-invalidate_keys prefix [] c n q d = ground arith
get-invalidate_keys prefix (path ∷ ks) c n q d = elim (Option-cases (JsMap.get path c.map)) [
  | inl miss ↦ ground (arith, get-invalidate_keys prefix ks c n q d, ==_iff path q)
  | inr (e, found) ↦ ground (
    arith,
    get-invalidate_keys prefix ks c n q d,
    get-invalidate_keys prefix ks
        (record c { bytes = c.bytes - e.byte_size; map = JsMap.delete path c.map }) (n + 1) q
        (delete-IsDistinct path c.map d),
    get-delete path q c.map d,
  )
]

length-invalidate_keys :
    (prefix : Str) (ks : List Str) (c : ReadCache) (n : ℕ)
    → length (invalidate_keys prefix ks c n).0.map + (invalidate_keys prefix ks c n).1
      ≡ length c.map + n
unfolding invalidate_keys
length-invalidate_keys prefix [] c n = refl
length-invalidate_keys prefix (path ∷ ks) c n = elim (Option-cases (JsMap.get path c.map)) [
  | inl miss ↦ ground (arith, length-invalidate_keys prefix ks c n)
  | inr (e, found) ↦ ground (
    arith,
    length-invalidate_keys prefix ks c n,
    length-invalidate_keys prefix ks
        (record c { bytes = c.bytes - e.byte_size; map = JsMap.delete path c.map }) (n + 1),
    length-delete path e c.map found,
  )
]

-- `invalidatePrefix` removes the prefix itself and all below it, keeps every other path with its
-- entry, and returns the number of entries that are gone.
pub invalidate_prefix_lem :
    (c : ReadCache) (prefix q : Str)
    → IsDistinct c.map
    → (JsMap.get q (invalidate_prefix c prefix).0.map
        ≡ (if covers prefix q then none else JsMap.get q c.map))
      × (length (invalidate_prefix c prefix).0.map + (invalidate_prefix c prefix).1 ≡ length c.map)
unfolding invalidate_prefix
invalidate_prefix_lem c prefix q d = (
  elim (Option-cases (JsMap.get q c.map)) [
    | inl miss ↦ ground (arith, get-invalidate_keys prefix (keys c.map) c 0 q d)
    | inr (e, found) ↦
        ground (arith, get-invalidate_keys prefix (keys c.map) c 0 q d, visits-keys q c.map e found)
  ],
  omega (arith, length-invalidate_keys prefix (keys c.map) c 0),
)
