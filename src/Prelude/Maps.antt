-- ===== src/Prelude/Maps.antt =====
-- Maps with numeric keys, as functions into `Option`, and texts as lists of code points.
use Prim.Native.Nat.{ℕ}
use Prim.Native.Char.{code}
use Prim.Native.String.{String}
use mathlib.Core.Option.{Option, none, some}
use mathlib.Core.List.{List, [], ◌∷◌}
use fedimint_wallets.Prelude.Tests.{if◌then◌else◌, ◌==◌}

-- A `BTreeMap` whose order of keys is never read.
abbrev pub NatMap : Type 0 → Type 0
NatMap V = ℕ → Option V

abbrev pub empty_map : {V : Type 0} → NatMap V
empty_map k = none

abbrev pub put : {V : Type 0} → ℕ → V → NatMap V → NatMap V
put k v m j = if j == k then some v else m j

-- A string, as its code points.
abbrev pub Text : Type 0
Text = List ℕ

abbrev pub codes : String → Text
codes String.[] = []
codes (String.◌∷◌ c s) = code c ∷ codes s
