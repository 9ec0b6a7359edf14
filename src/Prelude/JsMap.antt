-- ===== src/Prelude/JsMap.antt =====
-- JavaScript's `Map` with text keys, as the list of its entries in insertion order.
use mathlib.Core.Option.{Option, none, some}
use mathlib.Core.Bool.{Bool}
use mathlib.Core.List.{List, [], ◌∷◌, ◌++◌}
use mathlib.Core.Path.{◌≡◌, refl}
use Prim.Native.Nat.{◌+◌, ◌≤◌}
use Prim.Native.String.{String}
use native.Mathlib.Omega.{arith}
use text.Mathlib.Text.{◌==◌}
use text.Mathlib.TextEquality.{eq_iff}
use atraport_api.Prelude.Tests.{if◌then◌else◌, Bool-cases}
use mathlib.Core.Logic.{inl, inr}
use mathlib.Core.Path.{subst}
use atraport_api.Prelude.Lists.{length}

abbrev pub JsMap {ℓ} : Type ℓ → Type ℓ
JsMap V = List (String × V)

module _ {ℓ} {V : Type ℓ} where
  abbrev pub keys : JsMap V → List String
  keys [] = []
  keys ((j, v) ∷ m) = j ∷ keys m

  abbrev pub values : JsMap V → List V
  values [] = []
  values ((j, v) ∷ m) = v ∷ values m

  unfoldable pub get : String → JsMap V → Option V
  get k [] = none
  get k ((j, v) ∷ m) = if j == k then some v else get k m

  -- An existing key keeps its place; a new one goes to the end.
  unfoldable pub set : String → V → JsMap V → JsMap V
  set k v [] = (k, v) ∷ []
  set k v ((j, w) ∷ m) = if j == k then (k, v) ∷ m else (j, w) ∷ set k v m

  unfoldable pub delete : String → JsMap V → JsMap V
  delete k [] = []
  delete k ((j, v) ∷ m) = let rest = delete k m in if j == k then rest else (j, v) ∷ rest

  -- Deleting, while iterating, the entries whose value fails the test.
  unfoldable pub retain : (String → V → Bool) → JsMap V → JsMap V
  retain p [] = []
  retain p ((j, v) ∷ m) = let rest = retain p m in if p j v then (j, v) ∷ rest else rest

  pub get-set :
      (k j : String) (v : V) (m : JsMap V)
      → get j (set k v m) ≡ (if k == j then some v else get j m)
  unfolding get set
  get-set k j v [] = refl
  get-set k j v ((i, w) ∷ m) = ground (arith, eq_iff k j, eq_iff i k, eq_iff i j, get-set k j v m)

  pub get-delete :
      (k j : String) (m : JsMap V) → get j (delete k m) ≡ (if k == j then none else get j m)
  unfolding get delete
  get-delete k j [] = ground arith
  get-delete k j ((i, w) ∷ m) = ground (arith, eq_iff k j, eq_iff i k, eq_iff i j, get-delete k j m)

  pub get-append :
      (k j : String) (v : V) (m : JsMap V)
      → get k m ≡ none
      → get j (m ++ (k, v) ∷ []) ≡ (if k == j then some v else get j m)
  unfolding get
  get-append k j v [] h = refl
  get-append k j v ((i, w) ∷ m) h =
      ground (arith, eq_iff k j, eq_iff i k, eq_iff i j, get-append k j v m)

  -- A new key goes to the end.
  pub set_new : (k : String) (v : V) (m : JsMap V) → get k m ≡ none → set k v m ≡ m ++ (k, v) ∷ []
  unfolding get set
  set_new k v [] h = refl
  set_new k v ((i, w) ∷ m) h = ground (arith, set_new k v m)

  pub length-set : (k : String) (v : V) (m : JsMap V) → length (set k v m) ≤ length m + 1
  unfolding set
  length-set k v [] = omega arith
  length-set k v ((i, w) ∷ m) = ground (arith, length-set k v m)

  pub length-delete : (k : String) (m : JsMap V) → length (delete k m) ≤ length m
  unfolding delete
  length-delete k [] = omega arith
  length-delete k ((i, w) ∷ m) = ground (arith, length-delete k m)

  pub length-retain : (p : String → V → Bool) (m : JsMap V) → length (retain p m) ≤ length m
  unfolding retain
  length-retain p [] = omega arith
  length-retain p ((i, w) ∷ m) = ground (arith, length-retain p m)

  -- No key twice.
  abbrev pub IsDistinct : JsMap V → Type ℓ
  IsDistinct [] = Unit
  IsDistinct ((j, v) ∷ m) = (get j m ≡ none) × IsDistinct m

  pub get-retain_missing :
      (p : String → V → Bool) (k : String) (m : JsMap V)
      → get k m ≡ none
      → get k (retain p m) ≡ none
  unfolding get retain
  get-retain_missing p k [] h = refl
  get-retain_missing p k ((i, w) ∷ m) h = ground (arith, get-retain_missing p k m)

  abbrev pub keep : (String → V → Bool) → String → Option V → Option V
  keep p k none = none
  keep p k (some v) = if p k v then some v else none

  pub get-retain :
      (p : String → V → Bool) (k : String) (m : JsMap V)
      → IsDistinct m
      → get k (retain p m) ≡ keep p k (get k m)
  unfolding get retain
  get-retain p k [] d = refl
  get-retain p k ((i, w) ∷ m) d =
      ground (arith, get-retain p k m d.1, eq_iff i k, get-retain_missing p i m d.0)

  pub retain-IsDistinct :
      (p : String → V → Bool) (m : JsMap V) → IsDistinct m → IsDistinct (retain p m)
  unfolding retain
  retain-IsDistinct p [] d = tt
  retain-IsDistinct p ((i, w) ∷ m) d =
      ground (arith, retain-IsDistinct p m d.1, get-retain_missing p i m d.0)

  pub set-IsDistinct : (k : String) (v : V) (m : JsMap V) → IsDistinct m → IsDistinct (set k v m)
  unfolding set get
  set-IsDistinct k v [] d = (refl, tt)
  set-IsDistinct k v ((i, w) ∷ m) d =
      ground (arith, set-IsDistinct k v m d.1, get-set k i v m, eq_iff i k, eq_iff k i)

  pub delete-IsDistinct : (k : String) (m : JsMap V) → IsDistinct m → IsDistinct (delete k m)
  unfolding delete
  delete-IsDistinct k [] d = tt
  delete-IsDistinct k ((i, w) ∷ m) d =
      ground (arith, delete-IsDistinct k m d.1, get-delete k i m, eq_iff k i)

  pub get-set_present_none :
      (k j : String) (v w : V) (m : JsMap V)
      → get k m ≡ some w
      → get j m ≡ none
      → get j (set k v m) ≡ none
  get-set_present_none k j v w m here h = ground (arith, get-set k j v m, eq_iff k j)

-- A predicate that holds of every value.
module _ {ℓ κ} {V : Type ℓ} (P : V → Type κ) where
  abbrev pub Every : JsMap V → Type κ
  Every [] = Unit
  Every ((j, v) ∷ m) = P v × Every m

  pub set-Every : (k : String) (v : V) (m : JsMap V) → P v → Every m → Every (set k v m)
  unfolding set
  set-Every k v [] p h = (p, tt)
  set-Every k v ((i, w) ∷ m) p h = ground (arith, set-Every k v m p h.1)

  pub retain-Every : (p : String → V → Bool) (m : JsMap V) → Every m → Every (retain p m)
  unfolding retain
  retain-Every p [] h = tt
  retain-Every p ((i, w) ∷ m) h = ground (arith, retain-Every p m h.1)

  pub Every-get : (k : String) (v : V) (m : JsMap V) → Every m → get k m ≡ some v → P v
  unfolding get
  Every-get k v [] h e = absurd (ground arith)
  Every-get k v ((i, w) ∷ m) (p, h) e = elim (Bool-cases (i == k)) [
    | inl same ↦ subst P (ground arith) p
    | inr other ↦ Every-get k v m h (ground arith)
  ]
