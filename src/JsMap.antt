-- ===== src/JsMap.antt =====
-- JavaScript's `Map` as the source uses it: an association list in insertion order.
-- `set` on a present key keeps its place, a new key goes last, and each key stands once.
pub mod Laws
use obsidian_remote_ssh.Prelude.{
  ℕ, List, [], ◌∷◌, ◌≡◌, Option, none, some, Bool, Eq, ◌==◌, if◌then◌else◌, map, ◌+◌,
}

module _ {ℓ κ} {K : Type ℓ} {V : Type κ} ⦃e : Eq K⦄ where
  unfoldable pub get : K → List (K × V) → Option V
  get k [] = none
  get k ((j, w) ∷ m) = if j == k then some w else get k m

  unfoldable pub set : K → V → List (K × V) → List (K × V)
  set k v [] = (k, v) ∷ []
  set k v ((j, w) ∷ m) = if j == k then (j, v) ∷ m else (j, w) ∷ set k v m

  unfoldable pub delete : K → List (K × V) → List (K × V)
  delete k [] = []
  delete k ((j, w) ∷ m) = if j == k then m else (j, w) ∷ delete k m

  -- Each key stands once: the invariant of every `Map`.
  abbrev pub IsDistinct : List (K × V) → Type κ
  IsDistinct [] = Unit
  IsDistinct ((j, w) ∷ m) = (get j m ≡ none) × IsDistinct m

module _ {ℓ κ} {K : Type ℓ} {V : Type κ} where
  abbrev pub keys : List (K × V) → List K
  keys [] = []
  keys ((j, w) ∷ m) = j ∷ keys m

  abbrev pub values : List (K × V) → List V
  values [] = []
  values ((j, w) ∷ m) = w ∷ values m

  -- The sum of a measure over the values.
  abbrev pub weight : (V → ℕ) → List (K × V) → ℕ
  weight f [] = 0
  weight f ((j, w) ∷ m) = f w + weight f m
