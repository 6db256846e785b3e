-- ===== src/Common/Dict.antt =====
-- Python's dict with text keys, as an association list in insertion order.
use Prim.Native.String.{String}
use mathlib.Core.Path.{◌≡◌}
use mathlib.Core.Bool.{false}
use mathlib.Core.Option.{Option, none, some}
use mathlib.Core.List.{List, [], ◌∷◌}
use native.Mathlib.Omega.{arith}
use text.Mathlib.TextEquality.{eq_iff}
use text.Mathlib.TextPositions.{eq_refl}
use wheelbot.Common.Tests.{if◌then◌else◌, str_eq}

module _ {ℓ} {A : Type ℓ} where
  -- `d.get(k)`
  unfoldable pub get : String → List (String × A) → Option A
  get k [] = none
  get k ((j, a) ∷ d) = let rest = get k d in if str_eq j k then some a else rest

  -- `d[k] = a`: in place where the key is there, else at the end.
  unfoldable pub set_item : String → A → List (String × A) → List (String × A)
  set_item k a [] = (k, a) ∷ []
  set_item k a ((j, b) ∷ d) =
      let rest = set_item k a d in if str_eq j k then (j, a) ∷ d else (j, b) ∷ rest

  -- `d.pop(k, None)`
  unfoldable pub pop : String → List (String × A) → List (String × A)
  pop k [] = []
  pop k ((j, b) ∷ d) = let rest = pop k d in if str_eq j k then d else (j, b) ∷ rest

  -- `d.values()`
  abbrev pub values : List (String × A) → List A
  values [] = []
  values ((j, a) ∷ d) = a ∷ values d

  pub get-set_item : (k : String) (a : A) (d : List (String × A)) → get k (set_item k a d) ≡ some a
  unfolding get set_item
  get-set_item k a [] = ground (arith, eq_refl k)
  get-set_item k a ((j, b) ∷ d) = ground (arith, eq_refl k, get-set_item k a d)

  pub get-set_item_other :
      (k l : String) (a : A) (d : List (String × A))
      → str_eq k l ≡ false
      → get l (set_item k a d) ≡ get l d
  unfolding get set_item
  get-set_item_other k l a [] h = ground (arith, eq_refl k)
  get-set_item_other k l a ((j, b) ∷ d) h =
      ground (arith, eq_iff j k, eq_iff j l, get-set_item_other k l a d h)

  -- A key that is not there: adding it and taking it out again changes nothing.
  pub pop-set_item :
      (k : String) (a : A) (d : List (String × A)) → get k d ≡ none → pop k (set_item k a d) ≡ d
  unfolding get set_item pop
  pop-set_item k a [] h = ground (arith, eq_refl k)
  pop-set_item k a ((j, b) ∷ d) h = ground (arith, pop-set_item k a d)
