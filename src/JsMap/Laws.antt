-- ===== src/JsMap/Laws.antt =====
-- The laws of `Map`'s operations.
use obsidian_remote_ssh.Prelude.{
  ℕ, List, [], ◌∷◌, ◌++◌, ◌≡◌, ◌≢◌, refl, none, some, Eq, ◌==◌, ==_refl, ==_iff, if◌then◌else◌, ◌+◌,
  arith, length,
}
use obsidian_remote_ssh.JsMap.{get, set, delete, IsDistinct, weight}

module _ {ℓ κ} {K : Type ℓ} {V : Type κ} ⦃e : Eq K⦄ where
  pub get-set :
      (k j : K) (v : V) (m : List (K × V))
      → get j (set k v m) ≡ (if k == j then some v else get j m)
  unfolding get set
  get-set k j v [] = refl
  get-set k j v ((i, w) ∷ m) = ground (arith, get-set k j v m)

  pub get-set_self : (k : K) (v : V) (m : List (K × V)) → get k (set k v m) ≡ some v
  get-set_self k v m = ground (arith, get-set k k v m)

  pub get-delete_ne : (k j : K) (m : List (K × V)) → k ≢ j → get j (delete k m) ≡ get j m
  unfolding get delete
  get-delete_ne k j [] h = refl
  get-delete_ne k j ((i, w) ∷ m) h = ground (arith, get-delete_ne k j m)

  pub get-delete :
      (k j : K) (m : List (K × V))
      → IsDistinct m
      → get j (delete k m) ≡ (if k == j then none else get j m)
  unfolding get delete
  get-delete k j [] d = ground arith
  get-delete k j ((i, w) ∷ m) d = ground (arith, get-delete k j m)

  pub set-IsDistinct : (k : K) (v : V) (m : List (K × V)) → IsDistinct m → IsDistinct (set k v m)
  unfolding get set
  set-IsDistinct k v [] d = (refl, tt)
  set-IsDistinct k v ((i, w) ∷ m) d = ground (arith, set-IsDistinct k v m, get-set k i v m)

  pub delete-IsDistinct : (k : K) (m : List (K × V)) → IsDistinct m → IsDistinct (delete k m)
  unfolding get delete
  delete-IsDistinct k [] d = tt
  delete-IsDistinct k ((i, w) ∷ m) d = ground (arith, delete-IsDistinct k m, get-delete k i m)

  -- A new key is appended.
  pub set_absent :
      (k : K) (v : V) (m : List (K × V)) → get k m ≡ none → set k v m ≡ m ++ (k, v) ∷ []
  unfolding get set
  set_absent k v [] h = refl
  set_absent k v ((i, w) ∷ m) h = ground (arith, set_absent k v m)

  pub delete_absent : (k : K) (m : List (K × V)) → get k m ≡ none → delete k m ≡ m
  unfolding get delete
  delete_absent k [] h = refl
  delete_absent k ((i, w) ∷ m) h = ground (arith, delete_absent k m)

  pub weight-delete :
      (f : V → ℕ) (k : K) (v : V) (m : List (K × V))
      → get k m ≡ some v
      → weight f (delete k m) + f v ≡ weight f m
  unfolding get delete
  weight-delete f k v [] h = ground arith
  weight-delete f k v ((i, w) ∷ m) h = ground (arith, weight-delete f k v m)

  pub weight-set_absent :
      (f : V → ℕ) (k : K) (v : V) (m : List (K × V))
      → get k m ≡ none
      → weight f (set k v m) ≡ weight f m + f v
  unfolding get set
  weight-set_absent f k v [] h = omega arith
  weight-set_absent f k v ((i, w) ∷ m) h = ground (arith, weight-set_absent f k v m)

  pub length-delete :
      (k : K) (v : V) (m : List (K × V)) → get k m ≡ some v → length (delete k m) + 1 ≡ length m
  unfolding get delete
  length-delete k v [] h = ground arith
  length-delete k v ((i, w) ∷ m) h = ground (arith, length-delete k v m)

  pub weight-set :
      (f : V → ℕ) (k : K) (v w : V) (m : List (K × V))
      → get k m ≡ some w
      → weight f (set k v m) + f w ≡ weight f m + f v
  unfolding get set
  weight-set f k v w [] h = ground arith
  weight-set f k v w ((i, u) ∷ m) h = ground (arith, weight-set f k v w m)

  -- A map in which nothing is found is empty.
  pub eq-nil_of_get : (m : List (K × V)) → ((k : K) → get k m ≡ none) → m ≡ []
  unfolding get
  eq-nil_of_get [] h = refl
  eq-nil_of_get ((i, u) ∷ m) h = absurd (nothing (h i))
    where
      nothing : (if i == i then some u else get i m) ≡ none → ⊥
      nothing e = ground (arith, ==_refl i)

  -- The list behind its head lists what the map holds without the head's key.
  pub get-tail :
      (p k : K) (v : V) (l m : List (K × V))
      → IsDistinct ((p, v) ∷ l)
      → IsDistinct m
      → get k ((p, v) ∷ l) ≡ get k m
      → get k l ≡ get k (delete p m)
  unfolding get
  get-tail p k v l m dl d h = ground (arith, get-delete p k m d, ==_iff p k)
