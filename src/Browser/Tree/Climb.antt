-- ===== src/Browser/Tree/Climb.antt =====
-- When `parse_ax_tree` of src/cdp.rs ends: its search for a parent follows entries of the tree, and
-- nothing in the code bounds it.
use praefectus.Prelude.{
  ℕ, zero, suc, ◌<◌, ◌≡◌, refl, Bool, true, false, String, Option, none, some, List, [], ◌∷◌, arith,
  and_then, is_some, map, if◌then◌else◌,
}
use praefectus.Prelude.Try.{Try, ok, err, ok_or, ◌>>=◌}
use praefectus.Json.{Value}
use praefectus.Semantic.Resolve.{Hashing}
use praefectus.Browser.Page.{CdpError, CdpNode, protocol}
use praefectus.Browser.Tree.{
  Scan, Selected, climb, element_of, elements_of, ended, find_text, has_text, node_of, nothing_seen,
  opaque_ids, parse_ax_tree, proceed, raw_nodes_of, scan_nodes,
}

-- The parent of a node ranks below the node.
pub record IsRanked (rank : String → ℕ) (parents : List (String × String)) : Type 0 where
  pub below : (id parent : String) → find_text id parents ≡ some parent → rank parent < rank id

-- Every unselected node of the set has a parent in the set.
pub record IsTrap (trapped : String → Bool) (parents : List (String × String))
    (selected_ids : List String) : Type 0 where
  pub unselected : (id : String) → trapped id ≡ true → has_text id selected_ids ≡ false
  pub onward :
      (id : String)
      → trapped id ≡ true
      → (parent : String) × (find_text id parents ≡ some parent) × (trapped parent ≡ true)

is_some-if :
    {A : Type 0} (b : Bool) (a : A) (o : Option A)
    → is_some o ≡ true
    → is_some (if b then some a else o) ≡ true
is_some-if true a o h = refl
is_some-if false a o h = h

climb-ranked :
    (rank : String → ℕ) (parents : List (String × String)) (selected_ids : List String) (fuel : ℕ)
    (start : Option String)
    → IsRanked rank parents
    → ((id : String) → start ≡ some id → rank id < fuel)
    → is_some (climb fuel parents selected_ids start) ≡ true
climb-ranked rank parents selected_ids fuel none h k = refl
climb-ranked rank parents selected_ids zero (some id) h k = absurd (ground (arith, k id refl))
climb-ranked rank parents selected_ids (suc fuel) (some id) h k =
    is_some-if (has_text id selected_ids) _ _ (
      climb-ranked rank parents selected_ids fuel (find_text id parents) h
        λ parent e. ground (arith, k id refl, h.below id parent e))

-- In a tree whose parents rank below their children, the search for a parent ends after as many steps
-- as the rank of the first parent.
pub climb-ends :
    (rank : String → ℕ) (parents : List (String × String)) (selected_ids : List String)
    (id : String)
    → IsRanked rank parents
    → is_some (climb (suc (rank id)) parents selected_ids (some id)) ≡ true
climb-ends rank parents selected_ids id h =
    climb-ranked rank parents selected_ids (suc (rank id)) (some id) h
      λ other e. rw (some_injective id other e) (ground arith)
  where
    some_injective : (a b : String) → some a ≡ some b → a ≡ b
    some_injective a b e = cc

-- Among unselected nodes whose parents are again such nodes, the search for a parent does not end,
-- whatever the number of steps.
pub climb-loops :
    (trapped : String → Bool) (parents : List (String × String)) (selected_ids : List String)
    (fuel : ℕ) (id : String)
    → IsTrap trapped parents selected_ids
    → trapped id ≡ true
    → climb fuel parents selected_ids (some id) ≡ none
climb-loops trapped parents selected_ids zero id h k = rw (h.unselected id k) refl
climb-loops trapped parents selected_ids (suc fuel) id h k =
    let next = h.onward id k in
    rw (h.unselected id k)
      (rw next.1 (climb-loops trapped parents selected_ids fuel next.0 h next.2))

is_some-proceed :
    {A B : Type 0} (o : Option (Try CdpError A)) (next : A → Option (Try CdpError B))
    → is_some o ≡ true
    → ((a : A) → o ≡ some (ok a) → is_some (next a) ≡ true)
    → is_some (proceed o next) ≡ true
is_some-proceed none next h k = h
is_some-proceed (some (ok a)) next h k = k a refl
is_some-proceed (some (err e)) next h k = refl

is_some-ended : {A : Type 0} (o : Option A) → is_some o ≡ true → is_some (ended o) ≡ true
is_some-ended none h = h
is_some-ended (some p) h = refl

module _ (fingerprint : ℕ → String → Option String → Option String) where
  elements_of-ends :
      (rank : String → ℕ) (fuel : ℕ) (parents : List (String × String)) (selected_ids : List String)
      (ids : List (String × String)) (index : ℕ) (nodes : List (String × CdpNode))
      (selected : List Selected)
      → IsRanked rank parents
      → ((id : String) → rank id < fuel)
      → is_some (elements_of fingerprint fuel parents selected_ids ids index nodes selected) ≡ true
  elements_of-ends rank fuel parents selected_ids ids index nodes [] h k = refl
  elements_of-ends rank fuel parents selected_ids ids index nodes (s ∷ rest) h k =
      is_some-proceed (ended (climb fuel parents selected_ids (find_text s.raw_id parents))) _
        (is_some-ended _ (climb-ranked rank parents selected_ids fuel _ h λ id e. k id))
        λ parent e. is_some-proceed (some (ok_or (find_text s.raw_id ids) protocol)) _ refl λ id e1.
          is_some-proceed
            (some (element_of fingerprint index s id (and_then parent (λ up. find_text up ids)))) _
            refl
            λ element e2.
              is_some-proceed
                (elements_of fingerprint fuel parents selected_ids ids (suc index)
                  ((id, node_of fingerprint s element) ∷ nodes) rest)
                _
                (elements_of-ends rank fuel parents selected_ids ids (suc index)
                  ((id, node_of fingerprint s element) ∷ nodes) rest h k)
                λ found e3. refl

-- If the parents that the tree names rank below their children, and every rank is below the steps
-- given to a search, then the tree is parsed to its end, with elements or an error.
pub parse_ax_tree-ends :
    (hashing : Hashing) (number_u64 : String → Option ℕ)
    (fingerprint : ℕ → String → Option String → Option String) (fuel : ℕ) (tree : Value)
    (observation_id : String) (roots : List ℕ) (rank : String → ℕ)
    → ((nodes : List Value) (found : Scan)
        → raw_nodes_of tree ≡ ok nodes
        → scan_nodes number_u64 roots nodes nothing_seen ≡ ok found
        → IsRanked rank found.parents)
    → ((id : String) → rank id < fuel)
    → is_some (parse_ax_tree hashing number_u64 fingerprint fuel tree observation_id roots) ≡ true
unfolding parse_ax_tree
parse_ax_tree-ends hashing number_u64 fingerprint fuel tree observation_id roots rank ranked k =
    is_some-proceed
      (some (raw_nodes_of tree >>= λ nodes. scan_nodes number_u64 roots nodes nothing_seen)) _ refl
      λ found e.
        is_some-proceed (some (opaque_ids hashing observation_id [] found.selected)) _ refl
          λ ids e'.
            elements_of-ends fingerprint rank fuel found.parents
              (map (λ s. s.raw_id) found.selected) ids 0 [] found.selected
              (scanned (raw_nodes_of tree) refl found e) k
  where
    scanned :
        (nodes : Try CdpError (List Value))
        → raw_nodes_of tree ≡ nodes
        → (found : Scan)
        → some (nodes >>= λ n. scan_nodes number_u64 roots n nothing_seen) ≡ some (ok found)
        → IsRanked rank found.parents
    scanned (ok n) p found e = ranked n found p (inner e)
      where
        inner :
            some (scan_nodes number_u64 roots n nothing_seen) ≡ some (ok found)
            → scan_nodes number_u64 roots n nothing_seen ≡ ok found
        inner e = cc
    scanned (err x) p found e = cc
