-- ===== src/Vault/BulkWalker/Pages.antt =====
-- plugin/src/vault/BulkWalker.ts: the pages of `fs.walk`.
use native.Mathlib.Nat.{mul-suc}
use mathlib.Core.List.{append_assoc}
use obsidian_remote_ssh.Prelude.{
  ℕ, zero, suc, ◌+◌, ◌-◌, ◌*◌, ◌≤◌, List, [], ◌∷◌, ◌++◌, map, Bool, true, false, if◌then◌else◌, ltb,
  ◌=ℕ◌, Str, Option, none, some, ◌≡◌, refl, ap, ap₂, sym, ◌∙◌, arith, Bool-cases, inl, inr, length,
  take, drop, take-append-drop, take_all, drop-drop, length-drop, length-take,
}
use obsidian_remote_ssh.Vault.TreeSnapshot.{RemoteEntry}
use obsidian_remote_ssh.Vault.BulkWalker.{
  WalkEntry, WalkResult, WalkParams, ListedFiles, BulkWalkerDeps, BulkWalkResult, FastWalk, walked,
  walk_params, max_pages, from_fast, fast_from, fast_path, fallback_path, failed, walk,
}

-- The page of `size` entries at an offset, of a tree that is listed as `es`.
abbrev pub page_at : List WalkEntry → ℕ → ℕ → WalkResult
page_at es size offset = record {
  entries = take size (drop offset es);
  truncated = ltb (offset + size) (length es);
}

map-append : (xs ys : List WalkEntry) → map walked (xs ++ ys) ≡ map walked xs ++ map walked ys
map-append [] ys = refl
map-append (x ∷ xs) ys = ap (◌∷◌ (walked x)) (map-append xs ys)

-- The last page, and one before it.
page_at_last :
    (es : List WalkEntry) (size offset : ℕ)
    → ltb (offset + size) (length es) ≡ false
    → take size (drop offset es) ≡ drop offset es
page_at_last es size offset h =
    take_all size (drop offset es) (ground (arith, length-drop offset es))

length-page_at :
    (es : List WalkEntry) (size offset : ℕ)
    → ltb (offset + size) (length es) ≡ true
    → length (take size (drop offset es)) ≡ size
length-page_at es size offset h =
    ground (arith, length-drop offset es, length-take size (drop offset es))

module _ (fs_walk : WalkParams → Option WalkResult) (list : Str → Option ListedFiles)
    (deps : BulkWalkerDeps) (root_path : Str) (recursive : Bool) (es : List WalkEntry)
    (size : ℕ) where
  -- The daemon serves the tree in pages of one size.
  abbrev pub Serves : Type 0
  Serves =
      (offset : ℕ)
      → fs_walk (walk_params deps root_path recursive offset) ≡ some (page_at es size offset)

  -- The pages up to an offset and those behind it.
  joined :
      (all : List RemoteEntry) (offset : ℕ)
      → (all ++ map walked (take size (drop offset es))) ++ map walked (drop (offset + size) es)
        ≡ all ++ map walked (drop offset es)
  joined all offset =
      append_assoc all (map walked (take size (drop offset es)))
        (map walked (drop (offset + size) es))
      ∙ ap (λ t. all ++ t)
          (sym (map-append (take size (drop offset es)) (drop (offset + size) es))
            ∙ ap (map walked) (
                ap (λ t. take size (drop offset es) ++ t) (sym (drop-drop size offset es))
                ∙ take-append-drop size (drop offset es)))

  -- All that the loop is to return from an offset on.
  abbrev Rest : ℕ → ℕ → ℕ → List RemoteEntry → Type 0
  Rest left offset pages all =
      (n : ℕ) × (fast_from fs_walk list deps root_path recursive left offset pages all
        ≡ some
            (record { entries = all ++ map walked (drop offset es); truncated = false; pages = n }))

  last_page :
      Serves
      → (left offset pages : ℕ) (all : List RemoteEntry) → ltb (offset + size) (length es) ≡ false
      → Rest left offset pages all
  unfolding fast_from
  last_page serves zero offset pages all last =
      (pages + 1, rw (fast_from, serves offset, last, page_at_last es size offset last) refl)
  last_page serves (suc left) offset pages all last =
      (pages + 1, rw (fast_from, serves offset, last, page_at_last es size offset last) refl)

  next_page :
      Serves
      → 1 ≤ size
      → (left offset pages : ℕ) (all : List RemoteEntry) → ltb (offset + size) (length es) ≡ true
      → fast_from fs_walk list deps root_path recursive (suc left) offset pages all
        ≡ fast_from fs_walk list deps root_path recursive left
            (offset + size)
            (pages + 1)
            (all ++ map walked (take size (drop offset es)))
  unfolding fast_from
  next_page serves some_size left offset pages all more =
      let full = length-page_at es size offset more in
      let some_page : (size =ℕ 0) ≡ false = ground arith in
      rw (fast_from, serves offset, more, full, some_page) refl

  fast_from-Serves :
      Serves
      → 1 ≤ size
      → (left offset pages : ℕ) (all : List RemoteEntry) → length es ≤ offset + size * (left + 1)
      → Rest left offset pages all
  unfolding fast_from
  fast_from-Serves serves some_size zero offset pages all enough =
      last_page serves zero offset pages all (ground arith)
  fast_from-Serves serves some_size (suc left) offset pages all enough =
      elim (Bool-cases (ltb (offset + size) (length es))) [
        | inr last ↦ last_page serves (suc left) offset pages all last
        | inl more ↦
            let all' = all ++ map walked (take size (drop offset es)) in
            let (n, rest) =
              fast_from-Serves serves some_size left (offset + size) (pages + 1) all'
                (omega (arith, enough, one_more size left)) in
            (
              n,
              next_page serves some_size left offset pages all more
                  ∙ rest
                  ∙ ap (λ t. some (record { entries = t; truncated = false; pages = n }))
                      (joined all offset),
            )
      ]
    where
      next : (k : ℕ) → suc k + 1 ≡ suc (k + 1)
      next k = omega arith

      one_more : (s k : ℕ) → s * (suc k + 1) ≡ s + s * (k + 1)
      one_more s k = omega (arith, mul-suc s (k + 1), ap (λ j. s * j) (next k))

  -- `walk`, by whether there is `fs.walk` and by what the fast path gives.
  abbrev walk_by : ℕ → Bool → Option FastWalk → Option BulkWalkResult
  walk_by fuel has_walk fast =
      if has_walk
      then elim fast [
        | some result ↦ some (from_fast deps result)
        | none ↦ fallback_path fs_walk list fuel deps root_path recursive (some failed)
      ]
      else fallback_path fs_walk list fuel deps root_path recursive none

  -- A daemon that serves the tree in pages of one size, above zero, and in at most `MAX_PAGES` of
  -- them: `walk` reads all pages, and returns the visible entries of the whole tree in the order in
  -- which the daemon lists them, marked as complete.
  pub walk-Serves :
      (fuel : ℕ)
      → deps.has_walk ≡ true
      → Serves
      → 1 ≤ size
      → length es ≤ size * max_pages
      → (pages : ℕ) × (walk fs_walk list fuel deps root_path recursive
          ≡ some (
              from_fast deps
                (record { entries = map walked es; truncated = false; pages = pages })))
  unfolding walk fast_path
  walk-Serves fuel has_walk serves some_size enough =
      let (pages, all) =
        fast_from-Serves serves some_size (max_pages - 1) 0 0 [] (omega (arith, enough)) in
      (pages, ap₂ (walk_by fuel) has_walk all)
