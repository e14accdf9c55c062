-- ===== src/JsMap.antt =====
-- JavaScript's `Map`: it keeps the order of insertion, and `set` on a present key keeps its place.
pub mod Laws
use shells.Prelude.{
  ℕ, Bool, true, false, ◌||◌, Option, none, some, List, [], ◌∷◌, StrictEq, ◌==◌, if◌then◌else◌,
  length,
}

abbrev pub JsMap : Type 0 → Type 0 → Type 0
JsMap K V = List (K × V)

module _ {K V : Type 0} where
  abbrev pub keys : JsMap K V → List K
  keys [] = []
  keys ((j, w) ∷ m) = j ∷ keys m

  -- A change of every value, with its key at hand.
  unfoldable pub map_values : (K → V → V) → JsMap K V → JsMap K V
  map_values f [] = []
  map_values f ((j, w) ∷ m) = (j, f j w) ∷ map_values f m

module _ {K : Type 0} ⦃e : StrictEq K⦄ where
  -- `Array.prototype.includes`
  unfoldable pub includes : List K → K → Bool
  includes [] k = false
  includes (j ∷ ks) k = j == k || includes ks k

  module _ {V : Type 0} where
    unfoldable pub get : JsMap K V → K → Option V
    get [] k = none
    get ((j, v) ∷ m) k = if j == k then some v else get m k

    unfoldable pub has : JsMap K V → K → Bool
    has [] k = false
    has ((j, v) ∷ m) k = j == k || has m k

    unfoldable pub set : JsMap K V → K → V → JsMap K V
    set [] k v = (k, v) ∷ []
    set ((j, w) ∷ m) k v = if j == k then (k, v) ∷ m else (j, w) ∷ set m k v

    unfoldable pub delete : JsMap K V → K → JsMap K V
    delete [] k = []
    delete ((j, w) ∷ m) k = if j == k then m else (j, w) ∷ delete m k

    -- A change of the value at a key, where there is one: the code changes the object in place.
    unfoldable pub modify : JsMap K V → K → (V → V) → JsMap K V
    modify [] k f = []
    modify ((j, w) ∷ m) k f = if j == k then (j, f w) ∷ m else (j, w) ∷ modify m k f
