-- ===== src/Console/Visibility/Pairs.antt =====
-- The pairs of nodes that hear each other, and the links that go one way.
use meshonator.Base.{◌≡◌, String, true, false, ◌||◌, List, [], ◌∷◌, string_eq}
use meshonator.Console.Visibility.{SourceRow, Link, pair_key, has_pair}

-- each key differs from the keys before it
abbrev pub KeyOnce : List (String × String) → List Link → Type 0
KeyOnce seen [] = Unit
KeyOnce seen (l ∷ links) = (has_pair seen (pair_key l) ≡ false) × KeyOnce (pair_key l ∷ seen) links

abbrev pub keys_of : List Link → List (String × String)
keys_of [] = []
keys_of (l ∷ links) = pair_key l ∷ keys_of links

module _ (rows : List SourceRow) where
  -- the key is among those that were seen or is told now
  abbrev KeyTold : List (String × String) → List Link → String × String → Type 0
  KeyTold seen m k = (has_pair seen k || has_pair (keys_of m) k) ≡ true
