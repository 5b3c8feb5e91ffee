-- ===== src/Tests/Cache.antt =====
-- Runs of the caches in plugin/src/cache.
use native.Mathlib.Decide.{ℕ_discrete}
use obsidian_remote_ssh.Prelude.{
  ◌+◌, ◌-◌, List, [], ◌∷◌, if◌then◌else◌, Str, codes, ends_with, str_eq, str_discrete, none, some,
  length, ◌≡◌, refl, arith,
}
use obsidian_remote_ssh.JsMap
use obsidian_remote_ssh.JsMap.{IsDistinct}
use obsidian_remote_ssh.Cache.{covers}
use obsidian_remote_ssh.Cache.ReadCache
use obsidian_remote_ssh.Cache.ReadCache.{ReadCache, ReadCacheEntry, init, entry_of, put}
use obsidian_remote_ssh.Cache.ReadCache.Calls.{Call, run}
use obsidian_remote_ssh.Cache.ReadCache.Laws.{IsValid, size}
use obsidian_remote_ssh.Cache.ReadCache.Order
use obsidian_remote_ssh.Cache.ReadCache.Reach.{run_within_budget, ideal-run, ideal}
use obsidian_remote_ssh.Cache.ReadCache.Prefix.{invalidate_prefix_lem}
use obsidian_remote_ssh.Cache.DirCache
use obsidian_remote_ssh.Cache.DirCache.{DirCache}
use obsidian_remote_ssh.Cache.DirCache.Fresh

abbrev calls : List Call
calls =
    Call.put (codes "a/x") (1 ∷ 2 ∷ []) 10
    ∷ Call.put (codes "b") (3 ∷ 4 ∷ 5 ∷ []) 11
    ∷ Call.get (codes "a/x")
    ∷ Call.put (codes "a/y") (6 ∷ []) 12
    ∷ Call.invalidate_prefix (codes "c")
    ∷ []

-- Five bytes of room: `b` is the least recently used when `a/y` comes.
abbrev used : ReadCache
used = run calls (init (some 5))

used-max_bytes : used.max_bytes ≡ 5
unfolding run init str_discrete ℕ_discrete JsMap.get ReadCache.invalidate_prefix put ReadCache.get
    JsMap.set JsMap.delete covers ends_with
used-max_bytes = refl

used_lem :
    used.map ≡ (codes "a/x", entry_of (1 ∷ 2 ∷ []) 10) ∷ (codes "a/y", entry_of (6 ∷ []) 12) ∷ []
unfolding run init str_discrete ℕ_discrete JsMap.get ReadCache.invalidate_prefix put ReadCache.get
    JsMap.set JsMap.delete covers ends_with
used_lem = refl

run_within_budget_example : IsValid used
run_within_budget_example = run_within_budget (some 5) calls

ideal-run_example : ideal calls (λ _. none) (codes "a/y") ≡ some (entry_of (6 ∷ []) 12)
unfolding run init str_discrete ℕ_discrete JsMap.get ReadCache.invalidate_prefix put ReadCache.get
    JsMap.set JsMap.delete covers ends_with
ideal-run_example = ideal-run (some 5) calls (codes "a/y") (entry_of (6 ∷ []) 12) refl

invalidate_prefix_lem_example :
    (JsMap.get (codes "a/y") (ReadCache.invalidate_prefix used (codes "a")).0.map
      ≡ (if covers (codes "a") (codes "a/y") then none else JsMap.get (codes "a/y") used.map))
    × (length (ReadCache.invalidate_prefix used (codes "a")).0.map
          + (ReadCache.invalidate_prefix used (codes "a")).1
        ≡ length used.map)
invalidate_prefix_lem_example =
    invalidate_prefix_lem used (codes "a") (codes "a/y")
      (run_within_budget (some 5) calls).books.distinct

put-holding_example : put used (codes "d") (7 ∷ 8 ∷ 9 ∷ []) 20 ≡ record used {
  map =
      Order.fit used.max_bytes
        (Order.used_last (codes "d") (entry_of (7 ∷ 8 ∷ 9 ∷ []) 20) used.map);
  bytes = JsMap.weight size (
      Order.fit used.max_bytes
        (Order.used_last (codes "d") (entry_of (7 ∷ 8 ∷ 9 ∷ []) 20) used.map));
  evictions =
      used.evictions
      + (length (Order.used_last (codes "d") (entry_of (7 ∷ 8 ∷ 9 ∷ []) 20) used.map)
          - length (
              Order.fit used.max_bytes
                (Order.used_last (codes "d") (entry_of (7 ∷ 8 ∷ 9 ∷ []) 20) used.map)));
}
put-holding_example =
    Order.put-holding used (codes "d") (7 ∷ 8 ∷ 9 ∷ []) 20 (run_within_budget (some 5) calls).books

map-put_too_large_example : (put used (codes "d") (1 ∷ 2 ∷ 3 ∷ 4 ∷ 5 ∷ 6 ∷ []) 20).map ≡ []
map-put_too_large_example =
    Order.map-put_too_large used (codes "d") (1 ∷ 2 ∷ 3 ∷ 4 ∷ 5 ∷ 6 ∷ []) 20
      (run_within_budget (some 5) calls).books (omega (arith, used-max_bytes))

abbrev listings : List (Fresh.Call Str)
listings =
    Fresh.put (codes "d") (codes "x" ∷ codes "y" ∷ []) 100
    ∷ Fresh.put (codes "e") [] 200
    ∷ Fresh.invalidate_prefix (codes "e")
    ∷ []

get-run_example :
    (DirCache.get (Fresh.run listings (DirCache.init (some 3000))) (codes "d") 3099).1
    ≡ Fresh.fresh 3000 3099 (Fresh.ideal 3000 listings (λ _. none) (codes "d"))
get-run_example = Fresh.get-run 3000 listings (codes "d") 3099
