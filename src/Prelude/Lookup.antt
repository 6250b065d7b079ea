-- ===== src/Prelude/Lookup.antt =====
-- An `unordered_map` with texts for keys, as an association list without duplicate keys.
use abys.Prelude.Tests.{if◌then◌else◌}
use Prim.Native.String.{String}
use text.Mathlib.Text.{◌==◌}
use text.Mathlib.TextEquality.{eq_iff}
use native.Mathlib.Omega.{arith}
use mathlib.Core.List.{List, ◌∷◌, []}
use mathlib.Core.Path.{refl, ◌≡◌}
use mathlib.Core.Option.{some, none, Option}

abbrev pub Assoc : Type 0 → Type 0
Assoc Value = List (String × Value)

module _ {Value : Type 0} where
  -- `find`, and what it finds
  unfoldable pub lookup : String → Assoc Value → Option Value
  lookup name [] = none
  lookup name ((key, value) ∷ rest) = if key == name then some value else lookup name rest

  -- insert_or_assign, and the assignment to `m[k]`
  unfoldable pub insert : String → Value → Assoc Value → Assoc Value
  insert name new [] = (name, new) ∷ []
  insert name new ((key, value) ∷ rest) =
      if key == name then (name, new) ∷ rest else (key, value) ∷ insert name new rest

  unfoldable pub erase : String → Assoc Value → Assoc Value
  erase name [] = []
  erase name ((key, value) ∷ rest) =
      let kept = erase name rest in if key == name then kept else (key, value) ∷ kept

  -- What a map has for a name after the assignment to another name, or to it.
  pub lookup-insert :
      (name asked : String) (new : Value) (entries : Assoc Value)
      → lookup asked (insert name new entries)
        ≡ (if name == asked then some new else lookup asked entries)
  unfolding insert lookup
  lookup-insert name asked new [] = refl
  lookup-insert name asked new ((key, value) ∷ rest) = ground (
    lookup-insert name asked new rest,
    eq_iff key name,
    eq_iff key asked,
    eq_iff name asked,
    arith,
  )

  pub lookup-erase :
      (name asked : String) (entries : Assoc Value)
      → lookup asked (erase name entries) ≡ (if name == asked then none else lookup asked entries)
  unfolding erase lookup
  lookup-erase name asked [] = ground arith
  lookup-erase name asked ((key, value) ∷ rest) =
      ground
        (lookup-erase name asked rest, eq_iff key name, eq_iff key asked, eq_iff name asked, arith)
