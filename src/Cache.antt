-- ===== src/Cache.antt =====
-- plugin/src/cache: what the two caches share, the test of `invalidatePrefix`, and its loop over a
-- `Map` that deletes while it iterates.
pub mod ReadCache
pub mod DirCache
use obsidian_remote_ssh.Prelude.{
  ℕ, ◌+◌, List, [], ◌∷◌, ◌++◌, Bool, true, false, if◌then◌else◌, ◌==◌, ◌||◌, Str, str_eq, codes,
  starts_with, ends_with, ◌≡◌, Option, none, some, arith, refl,
}
use obsidian_remote_ssh.JsMap.{get, keys}

-- `prefix.endsWith('/') ? prefix : prefix + '/'`
unfoldable pub slashed : Str → Str
slashed prefix = if ends_with prefix (codes "/") then prefix else prefix ++ codes "/"

-- `path === prefix || path.startsWith(slash)`
unfoldable pub covers : Str → Str → Bool
unfolding slashed
covers prefix path = path == prefix || starts_with path (slashed prefix)

-- Whether the loop over `keys` meets `q`.
abbrev pub visits : List Str → Str → Bool
visits [] q = false
visits (k ∷ ks) q = k == q || visits ks q

pub visits-keys {ℓ} :
    {V : Type ℓ} (q : Str) (m : List (Str × V)) (v : V)
    → get q m ≡ some v
    → visits (keys m) q ≡ true
unfolding get
visits-keys q [] v h = ground arith
visits-keys q ((k, w) ∷ m) v h = ground (arith, visits-keys q m v)
