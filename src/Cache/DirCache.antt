-- ===== src/Cache/DirCache.antt =====
-- plugin/src/cache/DirCache.ts: directory listings with a time to live. The clock `now` is an
-- argument of the calls that read it; `RemoteEntry` (plugin/src/types.ts) is a parameter.
pub mod Fresh
use obsidian_remote_ssh.Prelude.{
  ℕ, ◌+◌, List, [], ◌∷◌, Bool, true, false, if◌then◌else◌, leb, Str, str_eq, Option, none, some,
  length,
}
use obsidian_remote_ssh.JsMap
use obsidian_remote_ssh.JsMap.{keys}
use obsidian_remote_ssh.Cache.{covers}

module _ (RemoteEntry : Type 0) where
  pub record DirCacheEntry : Type 0 where
    pub entries : List RemoteEntry
    pub expires_at : ℕ

  pub record DirCache : Type 0 where
    pub map : List (Str × DirCacheEntry)
    pub ttl_ms : ℕ

module _ {RemoteEntry : Type 0} where
  -- `new DirCache({ ttlMs })`
  unfoldable pub init : Option ℕ → DirCache RemoteEntry
  init ttl_ms = record { map = []; ttl_ms = elim ttl_ms [ none ↦ 3000 | some n ↦ n ] }

  unfoldable pub get :
      DirCache RemoteEntry → Str → ℕ → DirCache RemoteEntry × Option (List RemoteEntry)
  get c path now = elim (JsMap.get path c.map) [
    | none ↦ (c, none)
    | some entry ↦
        if leb entry.expires_at now
        then (record c { map = JsMap.delete path c.map }, none)
        else (c, some entry.entries)
  ]

  unfoldable pub put : DirCache RemoteEntry → Str → List RemoteEntry → ℕ → DirCache RemoteEntry
  put c path entries now = record c {
    map = JsMap.set path (record { entries = entries; expires_at = now + c.ttl_ms }) c.map;
  }

  unfoldable pub invalidate : DirCache RemoteEntry → Str → DirCache RemoteEntry
  invalidate c path = record c { map = JsMap.delete path c.map }

  -- The loop of `invalidatePrefix` over the keys that the iterator has left, with `removed`.
  unfoldable pub invalidate_keys :
      Str → List Str → DirCache RemoteEntry → ℕ → DirCache RemoteEntry × ℕ
  invalidate_keys prefix [] c removed = (c, removed)
  invalidate_keys prefix (path ∷ ks) c removed = elim (covers prefix path) [
    | true ↦ invalidate_keys prefix ks (record c { map = JsMap.delete path c.map }) (removed + 1)
    | false ↦ invalidate_keys prefix ks c removed
  ]

  unfoldable pub invalidate_prefix : DirCache RemoteEntry → Str → DirCache RemoteEntry × ℕ
  unfolding invalidate_keys
  invalidate_prefix c prefix = invalidate_keys prefix (keys c.map) c 0

  unfoldable pub clear : DirCache RemoteEntry → DirCache RemoteEntry
  clear c = record c { map = [] }

  unfoldable pub size : DirCache RemoteEntry → ℕ
  size c = length c.map
