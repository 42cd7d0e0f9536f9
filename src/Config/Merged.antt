-- ===== src/Config/Merged.antt =====
-- src/config.c, gbConfigMerge: the command line goes before the file.
use gibson_mastter.Base.{ℕ, Option, none, some, List, [], ◌∷◌}
use gibson_mastter.Trie.Shape.{IsSound}
use gibson_mastter.Config.{Config, Given, taken}

-- The settings that the command line makes.
abbrev pub chosen : List ℕ → List Given → List (List ℕ × List ℕ)
chosen skip [] = []
chosen skip (g ∷ gs) = elim (taken skip g) [
  | none ↦ chosen skip gs
  | some value ↦ (g.name, value) ∷ chosen skip gs
]

-- A configuration that is there is sound.
abbrev SoundIf : Option Config → Type 0
SoundIf none = Unit
SoundIf (some config) = IsSound config
