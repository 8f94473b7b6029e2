-- ===== src/Util.antt =====
-- pkg/util/tags.go: the difference between two tag lists. A nil pointer that is read panics.
pub mod Loops
pub mod Drift
pub mod Panics
use ack_dms_controller.Base.{
  Bool, List, Option, String, [], contains, false, if◌then◌else◌, none, some, true, ◌++◌, ◌==◌, ◌∷◌,
}
use ack_dms_controller.Go.{Go, deref, panics, returns, ◌>>=◌}
use ack_dms_controller.Tags.{Tag}

-- `equalStrings(a, b)`: its last comparison reads `*b` also where `b` is nil.
unfoldable pub equal_strings : Option String → Option String → Go Bool
equal_strings none none = returns true
equal_strings none (some t) = returns (t == "")
equal_strings (some s) none = if s == "" then returns true else panics
equal_strings (some s) (some t) = returns (s == t)

-- The inner loop, over `a`: `none` if no key matches, else what is appended before `continue`.
unfoldable pub match_tag : Tag → List Tag → Go (Option (List Tag))
unfolding equal_strings
match_tag a_element [] = returns none
match_tag a_element (b_element ∷ rest) = do
  same_key ← equal_strings a_element.key b_element.key
  elim same_key [
    | true ↦ do
      same_value ← equal_strings a_element.value b_element.value
      returns (some (if same_value then [] else b_element ∷ []))
    | false ↦ match_tag a_element rest
  ]

pub record TagsDelta : Type 0 where
  pub added_or_updated : List Tag
  pub removed : List String

-- The outer loop, over `b`, with `visitedIndexes` beside the results.
unfoldable pub walk_latest :
    List Tag → TagsDelta → List String → List Tag → Go (TagsDelta × List String)
unfolding match_tag
walk_latest a d visited [] = returns (d, visited)
walk_latest a d visited (a_element ∷ rest) = do
  key ← deref a_element.key
  found ← match_tag a_element a
  elim found [
    | none ↦
        walk_latest a (record d { removed = d.removed ++ (key ∷ []) }) (visited ++ (key ∷ [])) rest
    | some more ↦
        walk_latest a (record d { added_or_updated = d.added_or_updated ++ more })
          (visited ++ (key ∷ [])) rest
  ]

-- The last loop, over `a`.
unfoldable pub walk_desired : List String → TagsDelta → List Tag → Go TagsDelta
walk_desired visited d [] = returns d
walk_desired visited d (b_element ∷ rest) = do
  key ← deref b_element.key
  walk_desired visited
      (if contains visited key
        then d
        else record d { added_or_updated = d.added_or_updated ++ (b_element ∷ []) })
      rest

unfoldable pub compute_tags_delta : List Tag → List Tag → Go TagsDelta
unfolding walk_latest walk_desired
compute_tags_delta a b = do
  (d, visited) ← walk_latest a (record { added_or_updated = []; removed = [] }) [] b
  walk_desired visited d a
