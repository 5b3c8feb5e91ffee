-- ===== src/Cache/ReadCache/Laws.antt =====
-- The accounting of plugin/src/cache/ReadCache.ts.
use obsidian_remote_ssh.Prelude.{
  ℕ, ◌+◌, List, [], ◌∷◌, if◌then◌else◌, Str, str_eq, none, ◌≡◌, ◌≤◌, arith, refl, Option-cases,
  Bool-cases, inl, inr, ◌∙◌, ◌==◌,
}
use obsidian_remote_ssh.JsMap
use obsidian_remote_ssh.JsMap.{IsDistinct, weight, keys}
use obsidian_remote_ssh.JsMap.Laws.{
  get-set, get-delete, set-IsDistinct, delete-IsDistinct, weight-delete, weight-set_absent,
}
use obsidian_remote_ssh.Cache.{covers}
use obsidian_remote_ssh.Cache.ReadCache.{
  ReadCache, ReadCacheEntry, get, invalidate, store, invalidate_keys, invalidate_prefix, entry_of,
}

abbrev pub size : ReadCacheEntry → ℕ
size e = e.byte_size

-- A key stands once, and `bytes` is the sum of the sizes.
pub record IsCounted (c : ReadCache) : Type 0 where
  pub distinct : IsDistinct c.map
  pub counted : c.bytes ≡ weight size c.map

pub record IsValid (c : ReadCache) : Type 0 where
  pub books : IsCounted c
  pub within : c.bytes ≤ c.max_bytes

pub invalidate-IsCounted :
    (c : ReadCache) (path : Str) → IsCounted c → IsCounted (invalidate c path)
unfolding invalidate
invalidate-IsCounted c path h = elim (Option-cases (JsMap.get path c.map)) [
  | inl miss ↦ rw (miss, invalidate) h
  | inr (e, found) ↦
      rw (found, invalidate)
        (record {
          distinct = delete-IsDistinct path c.map h.distinct;
          counted = omega (arith, h.counted, weight-delete size path e c.map found);
        })
]

pub get-invalidate :
    (c : ReadCache) (path q : Str)
    → IsDistinct c.map
    → JsMap.get q (invalidate c path).map ≡ (if path == q then none else JsMap.get q c.map)
unfolding invalidate
get-invalidate c path q d = ground (arith, get-delete path q c.map)

pub store-IsCounted :
    (c : ReadCache) (path : Str) (content : List ℕ) (mtime : ℕ)
    → IsCounted c
    → IsCounted (store c path content mtime)
unfolding store
store-IsCounted c path content mtime h =
    let h' = invalidate-IsCounted c path h in
    let gone : JsMap.get path (invalidate c path).map ≡ none =
      get-invalidate c path path h.distinct ∙ ground arith in
    record {
      distinct = set-IsDistinct path (entry_of content mtime) (invalidate c path).map h'.distinct;
      counted = omega (
        arith,
        h'.counted,
        weight-set_absent size path (entry_of content mtime) (invalidate c path).map gone,
      );
    }

pub get-IsCounted : (c : ReadCache) (path : Str) → IsCounted c → IsCounted (get c path).0
unfolding get
get-IsCounted c path h = elim (Option-cases (JsMap.get path c.map)) [
  | inl miss ↦ rw (miss, get) (record { distinct = h.distinct; counted = h.counted })
  | inr (e, found) ↦
      rw (found, get)
        (record {
          distinct = set-IsDistinct path e _ (delete-IsDistinct path c.map h.distinct);
          counted = omega (
            arith,
            h.counted,
            weight-delete size path e c.map found,
            weight-set_absent size path e (JsMap.delete path c.map)
                (get-delete path path c.map h.distinct ∙ ground arith),
          );
        })
]

-- A read changes the order of the entries, and nothing that a later read returns.
pub get-get :
    (c : ReadCache) (path q : Str)
    → IsDistinct c.map
    → JsMap.get q (get c path).0.map ≡ JsMap.get q c.map
unfolding get
get-get c path q d = elim (Option-cases (JsMap.get path c.map)) [
  | inl miss ↦ rw (miss, get) refl
  | inr (e, found) ↦
      rw (found, get)
        (ground (arith, get-set path q e (JsMap.delete path c.map), get-delete path q c.map d))
]

invalidate_keys-IsCounted :
    (prefix : Str) (ks : List Str) (c : ReadCache) (n : ℕ)
    → IsCounted c
    → IsCounted (invalidate_keys prefix ks c n).0
unfolding invalidate_keys
invalidate_keys-IsCounted prefix [] c n h = h
invalidate_keys-IsCounted prefix (path ∷ ks) c n h = elim (Bool-cases (covers prefix path)) [
  | inl hit ↦
      rw (hit, invalidate_keys)
        (elim (Option-cases (JsMap.get path c.map)) [
          | inl miss ↦ rw (miss, invalidate_keys) (invalidate_keys-IsCounted prefix ks c n h)
          | inr (e, found) ↦
              rw (found, invalidate_keys)
                (invalidate_keys-IsCounted prefix ks _ (n + 1) (record {
                  distinct = delete-IsDistinct path c.map h.distinct;
                  counted = omega (arith, h.counted, weight-delete size path e c.map found);
                }))
        ])
  | inr other ↦ rw (other, invalidate_keys) (invalidate_keys-IsCounted prefix ks c n h)
]

pub invalidate_prefix-IsCounted :
    (c : ReadCache) (prefix : Str) → IsCounted c → IsCounted (invalidate_prefix c prefix).0
unfolding invalidate_prefix
invalidate_prefix-IsCounted c prefix h = invalidate_keys-IsCounted prefix (keys c.map) c 0 h
