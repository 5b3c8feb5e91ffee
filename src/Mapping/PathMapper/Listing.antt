-- ===== src/Mapping/PathMapper/Listing.antt =====
-- `resolveListing` of plugin/src/path/PathMapper.ts.
use obsidian_remote_ssh.Prelude.{
  ℕ, List, [], ◌∷◌, ◌++◌, true, false, str_eq, Str, starts_with, starts_with_inv, length, drop,
  drop-length-append, ◌≡◌, ◌≢◌, refl, ap, sym, ◌∙◌, arith, Bool-cases, inl, inr, some, All, none,
  Option, not, if◌then◌else◌, ◌==◌,
}
use mathlib.Core.List.{append_assoc, append-nil}
use mathlib.Core.Bool.{true≢false}
use obsidian_remote_ssh.Mapping.PathMapper.{
  PathMapper, config_dir, init, mapper_at, is_private, is_crossing_point, to_remote,
  strip_leading_slash, subtree_at, below_config, resolve_listing, ListingPlan, private_user_subdir,
}
use obsidian_remote_ssh.Mapping.PathMapper.Crossing.{starts_with-child, is_crossing_point-parent}
use obsidian_remote_ssh.Mapping.PathMapper.Prefix.{is_private-below}
use obsidian_remote_ssh.Mapping.PathMapper.Laws.{
  root_of, to_remote-private, to_remote-shared, strip_of_strip,
}

drop-append_front :
    (d front rest : Str)
    → starts_with d front ≡ true
    → drop (length front) (d ++ rest) ≡ drop (length front) d ++ rest
drop-append_front d [] rest h = refl
drop-append_front [] (c ∷ front) rest h = absurd (ground arith)
drop-append_front (e ∷ d) (c ∷ front) rest h = drop-append_front d front rest (ground arith)

resolve_listing-private :
    (m : PathMapper) (d : Str)
    → strip_leading_slash d ≡ d
    → is_private m d ≡ true
    → resolve_listing m d ≡ record {
      primary = to_remote m d;
      merge_from_user = false;
      user_subtree = none;
      hide_user_dir_name = none;
    }
unfolding resolve_listing
resolve_listing-private m d bare private = rw (bare, private) refl

resolve_listing-crossing :
    (m : PathMapper) (d : Str)
    → strip_leading_slash d ≡ d
    → is_private m d ≡ false
    → is_crossing_point m d ≡ true
    → resolve_listing m d ≡ record {
      primary = d;
      merge_from_user = true;
      user_subtree = some (subtree_at m (below_config m d []));
      hide_user_dir_name = if d == m.config_dir then some private_user_subdir else none;
    }
unfolding resolve_listing
resolve_listing-crossing m d bare shared crossing = rw (bare, shared, crossing) refl

strip-behind :
    (d rest : Str)
    → d ≢ []
    → starts_with d (47 ∷ []) ≡ false
    → (strip_leading_slash (d ++ rest) ≡ d ++ rest) × (starts_with (d ++ rest) (47 ∷ []) ≡ false)
unfolding strip_leading_slash
strip-behind [] rest n h = absurd (n refl)
strip-behind (c ∷ d) rest n h = ground arith

below-ne-nil :
    (front d : Str)
    → starts_with d (front ++ 47 ∷ []) ≡ true
    → d ≢ front ++ 47 ∷ []
    → (c : ℕ) × (rest : Str) × (drop (length (front ++ 47 ∷ [])) d ≡ c ∷ rest)
below-ne-nil front d h k = go (drop (length (front ++ 47 ∷ [])) d) refl
  where
    go :
        (t : Str)
        → drop (length (front ++ 47 ∷ [])) d ≡ t
        → (c : ℕ) × (rest : Str) × (drop (length (front ++ 47 ∷ [])) d ≡ c ∷ rest)
    go [] e = absurd (
        k (
          starts_with_inv d (front ++ 47 ∷ []) h
          ∙ ap (λ t. (front ++ 47 ∷ []) ++ t) e
          ∙ append-nil (front ++ 47 ∷ [])))
    go (c ∷ rest) e = (c, rest, e)

-- What is in the client's subtree, by the directory.
below_config-append :
    (client dir : Str) (ps : List Str) (d name : Str)
    → All (λ c. c ≢ 47) name
    → d ≢ dir ++ 47 ∷ []
    → starts_with (d ++ 47 ∷ name) (dir ++ 47 ∷ []) ≡ true
    → (root_of client dir ++ 47 ∷ []) ++ drop (length (dir ++ 47 ∷ [])) (d ++ 47 ∷ name)
      ≡ subtree_at (mapper_at client dir ps) (below_config (mapper_at client dir ps) d [])
        ++ 47 ∷ name
below_config-append client dir ps d name b o below =
    let front = dir ++ 47 ∷ [] in
    let root = root_of client dir in
    elim (Bool-cases (starts_with d front)) [
      | inl inside ↦
          let (c, rest, e) = below-ne-nil dir d inside o in
          let cut = drop-append_front d front (47 ∷ name) inside in
          rw (inside, e)
            (ap (λ t. (root ++ 47 ∷ []) ++ t) (cut ∙ ap (λ t. t ++ 47 ∷ name) e)
              ∙ append_assoc root (47 ∷ []) ((c ∷ rest) ++ 47 ∷ name)
              ∙ sym (append_assoc root (47 ∷ c ∷ rest) (47 ∷ name)))
      | inr outside ↦
          let e : d ≡ dir = elim (starts_with-child d name dir b below) [
            | inl same ↦ same
            | inr inside ↦ absurd (true≢false (sym inside ∙ outside))
          ] in
          let cut : drop (length front) (d ++ 47 ∷ name) ≡ name =
            ap (λ x. drop (length front) (x ++ 47 ∷ name)) e
            ∙ ap (drop (length front)) (sym (append_assoc dir (47 ∷ []) name))
            ∙ drop-length-append front name in
          rw outside (ap (λ t. (root ++ 47 ∷ []) ++ t) cut ∙ append_assoc root (47 ∷ []) name)
    ]

-- Where the listing by a plan takes the client's private files from.
abbrev pub private_place : ListingPlan → Option Str
private_place plan = if plan.merge_from_user then plan.user_subtree else some plan.primary

-- A directory with a private file in it is listed so that the file is found. If the directory is
-- private itself, the plan lists the place that `toRemote` gives for it, and the file is stored
-- there. If it is not, the plan lists the directory and a subtree of the client, and the file is
-- stored in that subtree. The directory is neither empty nor written with a slash in front, nor is it the config
-- dir with a slash behind, the file's name holds no slash, and the config dir no `*`.
pub resolve_listing-to_remote :
    (client dir : Str) (ps : List Str) (d name : Str)
    → All (λ c. c ≢ 42) dir
    → All (λ c. c ≢ 47) name
    → d ≢ []
    → starts_with d (47 ∷ []) ≡ false
    → d ≢ dir ++ 47 ∷ []
    → is_private (init client (config_dir (some dir)) (some ps)) (d ++ 47 ∷ name) ≡ true
    → ((resolve_listing (init client (config_dir (some dir)) (some ps)) d).merge_from_user
        ≡ not (is_private (init client (config_dir (some dir)) (some ps)) d))
      × ((resolve_listing (init client (config_dir (some dir)) (some ps)) d).primary
          ≡ to_remote (init client (config_dir (some dir)) (some ps)) d)
      × ((place : Str) × (private_place
              (resolve_listing (init client (config_dir (some dir)) (some ps)) d)
            ≡ some place)
          × (to_remote (init client (config_dir (some dir)) (some ps)) (d ++ 47 ∷ name)
              ≡ place ++ 47 ∷ name))
unfolding init
resolve_listing-to_remote client dir ps d name k b n s o private =
    let m = mapper_at client dir ps in
    let front = dir ++ 47 ∷ [] in
    let root = root_of client dir in
    let bare = strip_of_strip d s in
    let (file, file_s) = strip-behind d (47 ∷ name) n s in
    let stored : to_remote m (d ++ 47 ∷ name)
        ≡ (root ++ 47 ∷ []) ++ drop (length front) (d ++ 47 ∷ name) =
      rw file at (to_remote-private client dir ps (d ++ 47 ∷ name) k (rw file file_s) private) in
    let below : starts_with (d ++ 47 ∷ name) front ≡ true =
      rw file at (is_private-below client dir ps (d ++ 47 ∷ name) k private) in
    elim (Bool-cases (is_private m d)) [
      | inl whole ↦
          let inside : starts_with d front ≡ true =
            rw bare at (is_private-below client dir ps d k whole) in
          let moved : to_remote m d ≡ (root ++ 47 ∷ []) ++ drop (length front) d =
            rw bare at (to_remote-private client dir ps d k (rw bare s) whole) in
          let in_it : to_remote m (d ++ 47 ∷ name) ≡ to_remote m d ++ 47 ∷ name =
            stored
            ∙ ap (λ t. (root ++ 47 ∷ []) ++ t) (drop-append_front d front (47 ∷ name) inside)
            ∙ sym (append_assoc (root ++ 47 ∷ []) (drop (length front) d) (47 ∷ name))
            ∙ ap (λ t. t ++ 47 ∷ name) (sym moved) in
          rw (resolve_listing-private m d bare whole, whole)
            (refl, refl, (to_remote m d, refl, in_it))
      | inr shared ↦
          let crossing = is_crossing_point-parent client dir ps d name b bare file private shared in
          let stays : d ≡ to_remote m d = sym (to_remote-shared m d (rw bare s) shared) in
          rw (resolve_listing-crossing m d bare shared crossing, shared)
            (
              refl,
              stays,
              (
                subtree_at m (below_config m d []),
                refl,
                stored ∙ below_config-append client dir ps d name b o below,
              ),
            )
    ]
