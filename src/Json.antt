-- ===== src/Json.antt =====
-- JSON values and the two functions of JavaScript's `JSON` that the plugin calls. The numbers are
-- the natural ones, which is all that the modelled code writes.
use obsidian_remote_ssh.Prelude.{
  ℕ, [], ◌∷◌, Bool, if◌then◌else◌, ◌||◌, leb, ◌&&◌, ◌=ℕ◌, ◌==◌, Str, str_eq, Option, none, some,
  ◌≡◌, ◌≢◌, All,
}
use mathlib.Core.List.{reverse}

mutual
  pub data Json : Type 0 where
    null : Json
    bool : Bool → Json
    num : ℕ → Json
    str : Str → Json
    arr : Items → Json
    obj : Fields → Json

  pub data Items : Type 0 where
    nil : Items
    cons : Json → Items → Items

  pub data Fields : Type 0 where
    end : Fields
    field : Str → Json → Fields → Fields

-- `o.k`; `none` is `undefined`.
unfoldable pub member : Str → Fields → Option Json
member k end = none
member k (field j v fs) = if j == k then some v else member k fs

-- The white space that `trim` takes off.
unfoldable pub is_space : ℕ → Bool
is_space c =
    leb 9 c && leb c 13
    || c =ℕ 32
    || c =ℕ 160
    || c =ℕ 0x1680
    || leb 0x2000 c && leb c 0x200a
    || c =ℕ 0x2028
    || c =ℕ 0x2029
    || c =ℕ 0x202f
    || c =ℕ 0x205f
    || c =ℕ 0x3000
    || c =ℕ 0xfeff

unfoldable pub trim_start : Str → Str
unfolding is_space
trim_start [] = []
trim_start (c ∷ s) = let rest = trim_start s in if is_space c then rest else c ∷ s

-- `s.trim()`
unfoldable pub trim : Str → Str
unfolding trim_start
trim s = reverse (trim_start (reverse (trim_start s)))

-- `JSON.stringify` and `JSON.parse`, which throws (`none`) on what is no JSON. What is written is
-- read back, and stands on one line with no white space around it.
pub record JsonText : Type 0 where
  pub stringify : Json → Str
  pub parse : Str → Option Json
  pub parse-stringify : (v : Json) → parse (stringify v) ≡ some v
  pub stringify_one_line : (v : Json) → All (λ c. c ≢ 10) (stringify v)
  pub stringify-ne-nil : (v : Json) → stringify v ≢ []
  pub trim-stringify : (v : Json) → trim (stringify v) ≡ stringify v
