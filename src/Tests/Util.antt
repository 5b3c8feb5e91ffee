-- ===== src/Tests/Util.antt =====
-- Runs of the path functions in plugin/src/util/pathUtils.ts.
use obsidian_remote_ssh.Prelude.{codes, ends_with, ◌≡◌, refl, arith}
use obsidian_remote_ssh.Json.{is_space, trim_start}
use obsidian_remote_ssh.Util.PathUtils.{
  relative_to, to_remote_path, normalize_remote_path, drop_slashes,
}
use obsidian_remote_ssh.Util.PathUtils.Join.{relative_to-to_remote_path}

normalize_home : normalize_remote_path (codes " ~/notes// ") ≡ codes "notes"
unfolding normalize_remote_path drop_slashes is_space trim_start
normalize_home = refl

relative_to-to_remote_path_example :
    relative_to (codes "/srv") (to_remote_path (codes "/srv") (codes "a/b")) ≡ codes "a/b"
unfolding ends_with
relative_to-to_remote_path_example =
    relative_to-to_remote_path (codes "/srv") (codes "a/b") (ground arith) refl
