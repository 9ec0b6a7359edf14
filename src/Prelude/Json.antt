-- ===== src/Prelude/Json.antt =====
-- JSON values, and `undefined`. An object holds each key once, in the order of its entries. Of the numbers, only
-- the natural ones are told apart.
use Prim.Native.Nat.{ℕ}
use Prim.Native.String.{String}
use mathlib.Core.Bool.{Bool}
use mathlib.Core.Option.{Option, none, some}
use text.Mathlib.Text.{◌==◌}
use atraport_api.Prelude.Tests.{if◌then◌else◌}

mutual
  pub data Fields : Type 0 where
    entry : String → Value → Fields → Fields
    no_entries : Fields

  pub data Items : Type 0 where
    item : Value → Items → Items
    no_items : Items

  pub data Value : Type 0 where
    object : Fields → Value
    array : Items → Value
    null undefined : Value
    num : ℕ → Value
    str : String → Value
    bool : Bool → Value

unfoldable pub lookup : String → Fields → Option Value
lookup k no_entries = none
lookup k (entry j v fs) = if j == k then some v else lookup k fs

-- `o[k]`
abbrev pub property : String → Fields → Value
property k fs = elim (lookup k fs) [ none ↦ undefined | some v ↦ v ]
