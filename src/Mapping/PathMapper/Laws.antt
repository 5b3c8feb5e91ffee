-- ===== src/Mapping/PathMapper/Laws.antt =====
-- `toRemote` and `toVault` of plugin/src/path/PathMapper.ts.
use obsidian_remote_ssh.Prelude.{
  List, [], ◌∷◌, ◌++◌, true, false, if◌then◌else◌, Str, starts_with, starts_with_append,
  starts_with_inv, length, drop, drop-length-append, ◌≡◌, refl, ap, sym, ◌∙◌, arith, Bool-cases,
  inl, inr, some,
}
use mathlib.Core.List.{append_assoc}
use obsidian_remote_ssh.Mapping.PathMapper.{
  PathMapper, config_dir, init, mapper_at, is_private, to_remote, to_vault, strip_leading_slash,
  private_user_subdir,
}
use obsidian_remote_ssh.Mapping.PathMapper.Prefix.{NoStar, is_private-below}

pub strip_of_strip : (p : Str) → starts_with p (47 ∷ []) ≡ false → strip_leading_slash p ≡ p
unfolding strip_leading_slash
strip_of_strip [] h = refl
strip_of_strip (c ∷ p) h = ground arith

is_private-strip :
    (m : PathMapper) (p : Str)
    → starts_with (strip_leading_slash p) (47 ∷ []) ≡ false
    → is_private m (strip_leading_slash p) ≡ is_private m p
unfolding is_private
is_private-strip m p s = rw (strip_of_strip (strip_leading_slash p) s) refl

-- A path that is not private stays where it is.
pub to_remote-shared :
    (m : PathMapper) (p : Str)
    → starts_with (strip_leading_slash p) (47 ∷ []) ≡ false
    → is_private m p ≡ false
    → to_remote m p ≡ p
unfolding to_remote
to_remote-shared m p s h = let same = is_private-strip m p s ∙ h in rw same refl

-- The subtree of a client.
abbrev pub root_of : Str → Str → Str
root_of client dir = dir ++ 47 ∷ (private_user_subdir ++ 47 ∷ client)

-- Where a private path goes.
pub to_remote-private :
    (client dir : Str) (ps : List Str) (p : Str)
    → NoStar dir
    → starts_with (strip_leading_slash p) (47 ∷ []) ≡ false
    → is_private (mapper_at client dir ps) p ≡ true
    → to_remote (mapper_at client dir ps) p
      ≡ (root_of client dir ++ 47 ∷ []) ++ drop (length (dir ++ 47 ∷ [])) (strip_leading_slash p)
unfolding to_remote
to_remote-private client dir ps p k s h =
    let m = mapper_at client dir ps in
    let n = strip_leading_slash p in
    let same : is_private m n ≡ true = is_private-strip m p s ∙ h in
    let below = is_private-below client dir ps p k h in
    rw (same, below) (sym (append_assoc (root_of client dir) (47 ∷ []) _))

pub to_vault-below :
    (client dir : Str) (ps : List Str) (r : Str)
    → to_vault (mapper_at client dir ps) ((root_of client dir ++ 47 ∷ []) ++ r)
      ≡ (dir ++ 47 ∷ []) ++ r
unfolding to_vault
to_vault-below client dir ps r =
    rw
      (
        starts_with_append (root_of client dir ++ 47 ∷ []) r,
        drop-length-append (root_of client dir ++ 47 ∷ []) r,
      )
      refl

-- `toVault` undoes `toRemote`, up to a leading slash of a private path. The config dir holds no
-- `*`, the path does not begin with two slashes, and it does not itself lie in the client's subtree.
pub to_vault-to_remote :
    (client dir : Str) (ps : List Str) (p : Str)
    → NoStar dir
    → starts_with (strip_leading_slash p) (47 ∷ []) ≡ false
    → starts_with p (root_of client dir ++ 47 ∷ []) ≡ false
    → to_vault
        (init client (config_dir (some dir)) (some ps))
        (to_remote (init client (config_dir (some dir)) (some ps)) p)
      ≡ (if is_private (init client (config_dir (some dir)) (some ps)) p
          then strip_leading_slash p
          else p)
unfolding init
to_vault-to_remote client dir ps p k s o =
    let m = mapper_at client dir ps in
    elim (Bool-cases (is_private m p)) [
      | inl private ↦
          let n = strip_leading_slash p in
          rw private (
            ap (to_vault m) (to_remote-private client dir ps p k s private)
            ∙ to_vault-below client dir ps (drop (length (dir ++ 47 ∷ [])) n)
            ∙ sym (starts_with_inv n (dir ++ 47 ∷ []) (is_private-below client dir ps p k private)))
      | inr shared ↦
          let there : to_remote m p ≡ p = to_remote-shared m p s shared in
          let back : to_vault m p ≡ p = unfold to_vault in rw o refl in
          rw shared (ap (to_vault m) there ∙ back)
    ]
