-- ===== src/Mapping/WatchEvents/Laws.antt =====
-- What plugin/src/path/WatchEventFilter.ts makes of changes in the clients' subtrees.
use obsidian_remote_ssh.Prelude.{
  List, [], ◌∷◌, ◌++◌, Bool, true, false, ◌||◌, if◌then◌else◌, ◌==◌, ==_iff, str_eq, Str, codes,
  starts_with, starts_with_append, starts_with_inv, length, drop, ◌≡◌, ◌≢◌, refl, ap, sym, ◌∙◌,
  arith, Bool-cases, inl, inr, some, none, All,
}
use mathlib.Core.List.{append_assoc}
use mathlib.Core.Bool.{true≢false}
use obsidian_remote_ssh.Mapping.PathMapper.{
  PathMapper, config_dir, init, mapper_at, is_private, to_remote, to_vault, strip_leading_slash,
  private_user_subdir,
}
use obsidian_remote_ssh.Mapping.PathMapper.Prefix.{is_private-below}
use obsidian_remote_ssh.Mapping.PathMapper.Laws.{root_of, to_remote-private, to_vault-below}
use obsidian_remote_ssh.Mapping.WatchEvents.{
  looks_like_atomic_write_tmp, user_root_rel, user_prefix, interpret_watch_event,
}

starts_with-append_both : (x s t : Str) → starts_with (x ++ s) (x ++ t) ≡ starts_with s t
starts_with-append_both [] s t = refl
starts_with-append_both (c ∷ x) s t = ground (arith, starts_with-append_both x s t)

-- Of two names without a slash, the one with a slash behind it begins a path below the other only
-- if they are the same.
same_name :
    (name other r : Str)
    → All (λ c. c ≢ 47) name
    → All (λ c. c ≢ 47) other
    → starts_with (other ++ 47 ∷ r) (name ++ 47 ∷ []) ≡ true
    → other ≡ name
same_name [] [] r h k e = refl
same_name [] (d ∷ other) r h k e = let here = k.0 in absurd (ground arith)
same_name (c ∷ name) [] r h k e = let here = h.0 in absurd (ground arith)
same_name (c ∷ name) (d ∷ other) r h k e = ground (arith, same_name name other r h.1 k.1)

root_of-user :
    (client dir r : Str)
    → (root_of client dir ++ 47 ∷ []) ++ r ≡ (dir ++ codes "/user/") ++ (client ++ 47 ∷ r)
root_of-user client dir r =
    append_assoc (root_of client dir) (47 ∷ []) r
    ∙ append_assoc dir (47 ∷ (private_user_subdir ++ 47 ∷ client)) (47 ∷ r)
    ∙ sym (append_assoc dir (codes "/user/") (client ++ 47 ∷ r))

prefix-user :
    (client dir : Str) (ps : List Str)
    → user_prefix (mapper_at client dir ps) ≡ (dir ++ codes "/user/") ++ (client ++ 47 ∷ [])
prefix-user client dir ps =
    append_assoc dir (codes "/user") (47 ∷ (client ++ 47 ∷ []))
    ∙ sym (append_assoc dir (codes "/user/") (client ++ 47 ∷ []))

anyone-user :
    (client dir : Str) (ps : List Str)
    → user_root_rel (mapper_at client dir ps) ++ 47 ∷ [] ≡ dir ++ codes "/user/"
anyone-user client dir ps = append_assoc dir (codes "/user") (47 ∷ [])

interpret-own :
    (m : PathMapper) (path : Str)
    → looks_like_atomic_write_tmp path ≡ false
    → starts_with path (user_prefix m) ≡ true
    → interpret_watch_event path (some m)
      ≡ some (record { vault_path = to_vault m path; remote_path = path })
unfolding interpret_watch_event
interpret-own m path t o = rw (t, o) refl

interpret-foreign :
    (m : PathMapper) (path : Str)
    → looks_like_atomic_write_tmp path ≡ false
    → starts_with path (user_prefix m) ≡ false
    → starts_with path (user_root_rel m ++ 47 ∷ []) ≡ true
    → interpret_watch_event path (some m) ≡ none
unfolding interpret_watch_event
interpret-foreign m path t o u = rw (t, o, u, or_true (path == user_root_rel m)) refl
  where
    or_true : (b : Bool) → (b || true) ≡ true
    or_true b = ground arith

starts_with-own : (client r : Str) → starts_with (client ++ 47 ∷ r) (client ++ 47 ∷ []) ≡ true
starts_with-own client r =
    rw (← append_assoc client (47 ∷ []) r) (starts_with_append (client ++ 47 ∷ []) r)

-- A change of a private file, wherever it is stored. Where the client reads its own, it is reported
-- under the path that the vault knows; that of another client is dropped. The file is no temporary
-- one, the config dir holds no `*`, the path does not begin with two slashes, and the clients' ids
-- hold no slash.
pub interpret_watch_event-to_remote :
    (client other dir : Str) (ps : List Str) (p : Str)
    → All (λ c. c ≢ 42) dir
    → All (λ c. c ≢ 47) client
    → All (λ c. c ≢ 47) other
    → starts_with (strip_leading_slash p) (47 ∷ []) ≡ false
    → is_private (init other (config_dir (some dir)) (some ps)) p ≡ true
    → looks_like_atomic_write_tmp (to_remote (init other (config_dir (some dir)) (some ps)) p)
      ≡ false
    → interpret_watch_event
        (to_remote (init other (config_dir (some dir)) (some ps)) p)
        (some (init client (config_dir (some dir)) (some ps)))
      ≡ (if other == client
          then some (record {
            vault_path = strip_leading_slash p;
            remote_path = to_remote (init other (config_dir (some dir)) (some ps)) p;
          })
          else none)
unfolding init
interpret_watch_event-to_remote client other dir ps p k a b s private kept =
    let m = mapper_at client dir ps in
    let n = strip_leading_slash p in
    let r = drop (length (dir ++ 47 ∷ [])) n in
    let stored = to_remote-private other dir ps p k s private in
    let path = to_remote (mapper_at other dir ps) p in
    let user = dir ++ codes "/user/" in
    let at_user : path ≡ user ++ (other ++ 47 ∷ r) = stored ∙ root_of-user other dir r in
    let own : starts_with path (user_prefix m) ≡ starts_with (other ++ 47 ∷ r) (client ++ 47 ∷ []) =
      rw (at_user, prefix-user client dir ps)
        (starts_with-append_both user (other ++ 47 ∷ r) (client ++ 47 ∷ [])) in
    elim (Bool-cases (other == client)) [
      | inl same ↦
          let e : other ≡ client = (==_iff other client).0 same in
          let inside : starts_with path (user_prefix m) ≡ true =
            own ∙ rw e (starts_with-own client r) in
          let back : to_vault m path ≡ n =
            ap (to_vault m) (stored ∙ ap (λ c. (root_of c dir ++ 47 ∷ []) ++ r) e)
            ∙ to_vault-below client dir ps r
            ∙ sym
                (starts_with_inv n (dir ++ 47 ∷ []) (is_private-below other dir ps p k private)) in
          rw same (
            interpret-own m path kept inside
            ∙ ap (λ v. some (record { vault_path = v; remote_path = path })) back)
      | inr differ ↦
          let outside : starts_with (other ++ 47 ∷ r) (client ++ 47 ∷ []) ≡ false =
            elim (Bool-cases (starts_with (other ++ 47 ∷ r) (client ++ 47 ∷ []))) [
              | inl yes_it ↦ absurd (
                  true≢false
                    (sym ((==_iff other client).1 (same_name client other r a b yes_it)) ∙ differ))
              | inr no_it ↦ no_it
            ] in
          let anyone : starts_with path (user_root_rel m ++ 47 ∷ []) ≡ true =
            rw (at_user, anyone-user client dir ps) (starts_with_append user (other ++ 47 ∷ r)) in
          rw differ (interpret-foreign m path kept (own ∙ outside) anyone)
    ]
