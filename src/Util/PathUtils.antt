-- ===== src/Util/PathUtils.antt =====
-- plugin/src/util/pathUtils.ts: the functions on POSIX paths that stand on strings alone.
pub mod Join
use mathlib.Core.List.{reverse}
use obsidian_remote_ssh.Prelude.{
  ℕ, ◌+◌, List, [], ◌∷◌, ◌++◌, Bool, true, false, if◌then◌else◌, ◌=ℕ◌, ◌==◌, not, Str, str_eq,
  codes, starts_with, ends_with, join, drop, length,
}
use obsidian_remote_ssh.Json.{trim}

-- `s.replace(/\/+/g, '/')`, with whether a slash stands in front.
unfoldable pub squeeze : Bool → Str → Str
squeeze after [] = []
squeeze after (c ∷ s) =
    let behind_slash = squeeze true s in
    let behind_other = squeeze false s in
    if c =ℕ 47 then (if after then behind_slash else 47 ∷ behind_slash) else c ∷ behind_other

unfoldable pub posix_join : List Str → Str
unfolding squeeze join
posix_join parts = squeeze false (join (codes "/") parts)

unfoldable pub relative_to : Str → Str → Str
unfolding ends_with
relative_to base full =
    if not (starts_with full base)
    then full
    else drop (if ends_with base (codes "/") then length base else length base + 1) full

unfoldable pub ensure_trailing_slash : Str → Str
unfolding ends_with
ensure_trailing_slash p = if ends_with p (codes "/") then p else p ++ codes "/"

unfoldable pub to_remote_path : Str → Str → Str
unfolding posix_join
to_remote_path remote_base relative_path = posix_join (remote_base ∷ relative_path ∷ [])

-- The `while` loop of `normalizeRemotePath`, from the last character on.
unfoldable pub drop_slashes : Str → Str
drop_slashes [] = []
drop_slashes (c ∷ []) = c ∷ []
drop_slashes (c ∷ d ∷ s) = let rest = drop_slashes (d ∷ s) in if c =ℕ 47 then rest else c ∷ d ∷ s

unfoldable pub normalize_remote_path : Str → Str
unfolding trim drop_slashes
normalize_remote_path p =
    let t = trim p in
    let r =
      if starts_with t (codes "~/") then drop 2 t else if t == codes "~" then codes "." else t in
    reverse (drop_slashes (reverse r))
