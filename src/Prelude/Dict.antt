-- ===== src/Prelude/Dict.antt =====
-- A Python dict, in insertion order. Its keys are only compared, so they are numbers.
use Prim.Native.Nat.{ℕ, ◌≤◌, ◌+◌}
use mathlib.Core.Path.{◌≡◌}
use mathlib.Core.Logic.{◌≢◌}
use mathlib.Core.Bool.{Bool}
use mathlib.Core.Option.{Option, none, some}
use mathlib.Core.List.{List, [], ◌∷◌}
use native.Mathlib.Omega.{arith}
use apex_xauusd_engine.Prelude.Tests.{◌==◌, if◌then◌else◌, is_some}
use apex_xauusd_engine.Prelude.Lists.{length}

abbrev pub Dict {ℓ} : Type ℓ → Type ℓ
Dict V = List (ℕ × V)

module _ {ℓ} {V : Type ℓ} where
  -- `d[key] = value`: an entry of the key is replaced where it stands, a new one goes to the end.
  abbrev pub insert : ℕ → V → Dict V → Dict V
  insert key value [] = (key, value) ∷ []
  insert key value ((at, old) ∷ rest) =
      if key == at then (key, value) ∷ rest else (at, old) ∷ insert key value rest

  -- `d.get(key)`
  abbrev pub lookup : ℕ → Dict V → Option V
  lookup key [] = none
  lookup key ((at, value) ∷ rest) = if key == at then some value else lookup key rest

  -- `del d[key]`
  abbrev pub erase : ℕ → Dict V → Dict V
  erase key [] = []
  erase key ((at, value) ∷ rest) = if key == at then rest else (at, value) ∷ erase key rest

  -- `key in d`
  abbrev pub contains : ℕ → Dict V → Bool
  contains key d = is_some (lookup key d)

  pub length-insert :
      (key : ℕ) (value : V) (d : Dict V) → length (insert key value d) ≤ length d + 1
  length-insert key value [] = omega arith
  length-insert key value (entry ∷ rest) = ground (arith, length-insert key value rest)

  pub lookup-insert :
      (asked key : ℕ) (value : V) (d : Dict V)
      → lookup asked (insert key value d) ≡ (if asked == key then some value else lookup asked d)
  lookup-insert asked key value [] = ground arith
  lookup-insert asked key value (entry ∷ rest) = ground (arith, lookup-insert asked key value rest)

  pub lookup-insert_self :
      (key : ℕ) (value : V) (d : Dict V) → lookup key (insert key value d) ≡ some value
  lookup-insert_self key value d = ground (arith, lookup-insert key key value d)

  pub lookup-insert_ne :
      (asked key : ℕ) (value : V) (d : Dict V)
      → asked ≢ key
      → lookup asked (insert key value d) ≡ lookup asked d
  lookup-insert_ne asked key value d other = ground (arith, lookup-insert asked key value d)
