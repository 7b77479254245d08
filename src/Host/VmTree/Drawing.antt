-- ===== src/Host/VmTree/Drawing.antt =====
-- src/collect_vm_creation.rs: the drawing that the tree of machines stands for. A machine's path says,
-- from itself up to the root's child, which of them is the last of its siblings.
use mathlib.Core.List.{append-nil, map-append}
use jolt_ncp.Base.{
  ℕ, zero, suc, ◌≡◌, refl, ap, sym, Bool, true, false, Bool-cases, inl, inr, List, [], ◌∷◌, ◌++◌,
  map, some, none, Outcome, ok, err, panic, ◌>>=◌, expect, traverse, if◌then◌else◌, Outcome-cases,
  Option-cases, flat_map,
}
use jolt_ncp.Host.Text.{Text}
use jolt_ncp.Host.Executor.{CollectorKey}
use jolt_ncp.Host.VmTree.{
  VmCreation, Line, Tree, Hints, Traces, Segment, OutOfFuel, tee, elbow, bar, gap, is_tee, is_elbow,
  trim_end_matches, new_prefix, find, key_of, print_children, print_vm_tree_recursive, out_of_fuel,
  hints, spawn_tree, print_vm_tree,
}

abbrev pub own_mark : Bool → Segment
own_mark is_last = if is_last then elbow else tee

abbrev pub ancestor_mark : Bool → Segment
ancestor_mark is_last = if is_last then gap else bar

-- One mark for each machine of a path, the farthest first.
pub ancestor_marks : List Bool → List Segment
ancestor_marks [] = []
ancestor_marks (b ∷ path) = ancestor_marks path ++ ancestor_mark b ∷ []

pub indent_of : List Bool → List Segment
indent_of [] = []
indent_of (b ∷ path) = ancestor_marks path ++ own_mark b ∷ []

-- Each child with whether it is the last.
unfoldable pub flagged : {A : Type 0} → List A → List (A × Bool)
flagged [] = []
flagged (x ∷ []) = (x, true) ∷ []
flagged (x ∷ y ∷ xs) = (x, false) ∷ flagged (y ∷ xs)

abbrev pub children_of : Tree → CollectorKey → List VmCreation
children_of tree key = elim (find key tree) [ some cs ↦ cs | none ↦ [] ]

-- The machines in the order of a walk that visits a machine before its children, each with its path.
unfoldable pub walk :
    ℕ
    → Tree
    → Hints
    → CollectorKey
    → List Bool
    → Outcome OutOfFuel (List (List Bool × CollectorKey × Text))
walk zero tree hint key path = err out_of_fuel
walk (suc n) tree hint key path = do
  text ← expect (find key hint)
  below ←
      traverse (λ child. walk n tree hint (key_of child.0) (child.1 ∷ path))
        (flagged (children_of tree key))
  ok ((path, key, text) ∷ flat_map (λ visits. visits) below)

abbrev pub line_of : List Bool × CollectorKey × Text → Line
line_of (path, key, text) = record { indent = indent_of path; key = key; hint = text }

abbrev pub drawing :
    Outcome OutOfFuel (List (List Bool × CollectorKey × Text)) → Outcome OutOfFuel (List Line)
drawing visits = do vs ← visits; ok (map line_of vs)

abbrev pub is_last_of : List Bool → Bool
is_last_of [] = false
is_last_of (b ∷ path) = b

trim_end_matches-snoc :
    (test : Segment → Bool) (ss : List Segment) (s : Segment)
    → trim_end_matches test (ss ++ s ∷ [])
      ≡ (if test s then trim_end_matches test ss else ss ++ s ∷ [])
unfolding trim_end_matches
trim_end_matches-snoc test [] s = refl
trim_end_matches-snoc test (t ∷ []) s = elim (Bool-cases (test s)) [
  | inl cut ↦ rw (trim_end_matches, cut) refl
  | inr kept ↦ rw (trim_end_matches, kept) refl
]
trim_end_matches-snoc test (t ∷ u ∷ ss) s =
    let ih = trim_end_matches-snoc test (u ∷ ss) s in
    elim (Bool-cases (test s)) [
      | inl cut ↦ rw (cut, rw cut at ih) refl
      | inr kept ↦ rw (kept, rw kept at ih) refl
    ]

new_prefix-snoc :
    (ss : List Segment) (s : Segment) (b : Bool)
    → new_prefix (ss ++ s ∷ []) b
      ≡ trim_end_matches is_elbow (trim_end_matches is_tee (ss ++ s ∷ [])) ++ ancestor_mark b ∷ []
unfolding new_prefix
new_prefix-snoc [] s b = refl
new_prefix-snoc (t ∷ ss) s b = refl

trim_end_matches-ancestor_marks :
    (test : Segment → Bool) (path : List Bool)
    → test bar ≡ false
    → test gap ≡ false
    → trim_end_matches test (ancestor_marks path) ≡ ancestor_marks path
unfolding ancestor_marks trim_end_matches
trim_end_matches-ancestor_marks test [] b g = refl
trim_end_matches-ancestor_marks test (true ∷ path) b g =
    rw (trim_end_matches-snoc test (ancestor_marks path) gap, g) refl
trim_end_matches-ancestor_marks test (false ∷ path) b g =
    rw (trim_end_matches-snoc test (ancestor_marks path) bar, b) refl

-- What a machine hands to its children is the marks of its own path.
new_prefix-indent_of :
    (path : List Bool) → new_prefix (indent_of path) (is_last_of path) ≡ ancestor_marks path
unfolding new_prefix ancestor_marks indent_of
new_prefix-indent_of [] = refl
new_prefix-indent_of (true ∷ path) =
    rw
      (
        new_prefix-snoc (ancestor_marks path) elbow true,
        trim_end_matches-snoc is_tee (ancestor_marks path) elbow,
        trim_end_matches-snoc is_elbow (ancestor_marks path) elbow,
        trim_end_matches-ancestor_marks is_elbow path refl refl,
      )
      refl
new_prefix-indent_of (false ∷ path) =
    rw
      (
        new_prefix-snoc (ancestor_marks path) tee false,
        trim_end_matches-snoc is_tee (ancestor_marks path) tee,
        trim_end_matches-ancestor_marks is_tee path refl refl,
        trim_end_matches-ancestor_marks is_elbow path refl refl,
      )
      refl

abbrev Visits : Type 0
Visits = List (List Bool × CollectorKey × Text)

drawing-cons :
    (own : Visits) (r : Outcome OutOfFuel (List Visits))
    → (do
      rest ← (do below ← r; ok (map line_of (flat_map (λ visits. visits) below)))
      ok (map line_of own ++ rest))
      ≡ (do
        below ← (do ys ← r; ok (own ∷ ys))
        ok (map line_of (flat_map (λ visits. visits) below)))
drawing-cons own (ok ys) = ap ok (sym (map-append line_of own (flat_map (λ visits. visits) ys)))
drawing-cons own (err e) = refl
drawing-cons own panic = refl

drawing-below :
    (v : List Bool × CollectorKey × Text) (r : Outcome OutOfFuel (List Visits))
    → (do
      below ← (do vs ← r; ok (map line_of (flat_map (λ visits. visits) vs)))
      ok (line_of v ∷ below))
      ≡ drawing (do below ← r; ok (v ∷ flat_map (λ visits. visits) below))
drawing-below v (ok ys) = refl
drawing-below v (err e) = refl
drawing-below v panic = refl

-- The loop over the children prints the walks below them.
print_children-drawing :
    (print : CollectorKey → List Segment → Bool → Outcome OutOfFuel (List Line))
    (visit : CollectorKey → List Bool → Outcome OutOfFuel Visits) (path : List Bool)
    (cs : List VmCreation)
    → ((key : CollectorKey) (b : Bool)
        → print key (ancestor_marks path ++ own_mark b ∷ []) b ≡ drawing (visit key (b ∷ path)))
    → print_children print (ancestor_marks path) cs ≡ (do
      below ← traverse (λ child. visit (key_of child.0) (child.1 ∷ path)) (flagged cs)
      ok (map line_of (flat_map (λ visits. visits) below)))
unfolding print_children flagged traverse
print_children-drawing print visit path [] h = refl
print_children-drawing print visit path (c ∷ []) h =
    elim (Outcome-cases (visit (key_of c) (true ∷ path))) [
      | inl (own, drawn) ↦ rw (h (key_of c) true, drawn, append-nil own) refl
      | inr (inl (e, failed)) ↦ rw (h (key_of c) true, failed) refl
      | inr (inr stuck) ↦ rw (h (key_of c) true, stuck) refl
    ]
print_children-drawing print visit path (c ∷ d ∷ cs) h =
    let ih = print_children-drawing print visit path (d ∷ cs) h in
    elim (Outcome-cases (visit (key_of c) (false ∷ path))) [
      | inl (own, drawn) ↦
          rw (h (key_of c) false, drawn, ih)
            (drawing-cons own
              (traverse (λ child. visit (key_of child.0) (child.1 ∷ path)) (flagged (d ∷ cs))))
      | inr (inl (e, failed)) ↦ rw (h (key_of c) false, failed) refl
      | inr (inr stuck) ↦ rw (h (key_of c) false, stuck) refl
    ]

-- Printing from a machine, with the indentation of its path, prints the walk from it, one line for
-- each machine, and fails where the walk does.
pub print_vm_tree_recursive-walk :
    (n : ℕ) (tree : Tree) (hint : Hints) (key : CollectorKey) (path : List Bool)
    → print_vm_tree_recursive n tree hint key (indent_of path) (is_last_of path)
      ≡ drawing (walk n tree hint key path)
unfolding print_vm_tree_recursive walk indent_of
print_vm_tree_recursive-walk zero tree hint key path = refl
print_vm_tree_recursive-walk (suc n) tree hint key path = elim (Option-cases (find key hint)) [
  | inl missing ↦ rw missing refl
  | inr (text, hinted) ↦
      let loop =
        print_children-drawing (print_vm_tree_recursive n tree hint) (walk n tree hint) path
          (children_of tree key) (λ k b. print_vm_tree_recursive-walk n tree hint k (b ∷ path)) in
      rw (hinted, new_prefix-indent_of path, loop)
        (drawing-below (path, key, text)
          (traverse (λ child. walk n tree hint (key_of child.0) (child.1 ∷ path))
            (flagged (children_of tree key))))
]

-- The walk from the root machine, if anything was spawned.
pub root_walk : ℕ → Hints → Tree → Outcome OutOfFuel Visits
root_walk fuel hint [] = ok []
root_walk fuel hint (branch ∷ branches) =
    walk fuel (branch ∷ branches) hint (record { vm_id = 0; generation_id = 0 }) []

print_branches-root_walk :
    (fuel : ℕ) (hint : Hints) (tree : Tree)
    → elim tree as (λ x. Outcome OutOfFuel (List Line)) [
      | [] ↦ ok []
      | branch ∷ branches ↦
          print_vm_tree_recursive fuel
            (branch ∷ branches)
            hint
            (record { vm_id = 0; generation_id = 0 })
            []
            false
    ]
      ≡ drawing (root_walk fuel hint tree)
unfolding indent_of root_walk
print_branches-root_walk fuel hint [] = refl
print_branches-root_walk fuel hint (branch ∷ branches) =
    print_vm_tree_recursive-walk fuel (branch ∷ branches) hint
      (record { vm_id = 0; generation_id = 0 }) []

-- What is printed of the traces is, where anything was spawned, the walk from the root machine:
-- one line for each machine that the walk visits, a machine before its children, whose indentation
-- has a mark for each machine on the path from the root's child to it, a bar for an ancestor with
-- a later sibling, a gap for one without, and a tee or an elbow for the machine itself. Printing
-- fails where the hints or the walk do, and in the same way.
pub print_vm_tree-root_walk :
    (fuel : ℕ) (traces : Traces)
    → print_vm_tree fuel traces
      ≡ (do hint ← hints traces; drawing (root_walk fuel hint (spawn_tree traces)))
unfolding print_vm_tree
print_vm_tree-root_walk fuel traces = elim (Outcome-cases (hints traces)) [
  | inl (hint, named) ↦ rw named (print_branches-root_walk fuel hint (spawn_tree traces))
  | inr (inl (e, failed)) ↦ rw failed refl
  | inr (inr stuck) ↦ rw stuck refl
]
