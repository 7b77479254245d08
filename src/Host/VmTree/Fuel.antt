-- ===== src/Host/VmTree/Fuel.antt =====
-- The depth of the recursion over the tree, for machines that spawn machines with larger ids.
use mathlib.Core.Path.{subst}
use jolt_ncp.Base.{
  ℕ, zero, suc, ◌+◌, ◌<◌, ◌≤◌, ◌≡◌, refl, Bool, List, [], ◌∷◌, ◌++◌, some, Outcome, ok, All,
  All-map, arith, true, false, Bool-cases, Option-cases, inl, inr,
}
use jolt_ncp.Host.Text.{Text}
use jolt_ncp.Host.Executor.{CollectorKey}
use jolt_ncp.Host.VmTree.{
  VmCreation, Line, Tree, Hints, Segment, OutOfFuel, find, same_key, key_of, new_prefix,
  print_children, print_vm_tree_recursive, tee, elbow,
}

abbrev pub IsOk : {E A : Type 0} → Outcome E A → Type 0
IsOk {A = A} o = (a : A) × (o ≡ ok a)

-- A machine that has a hint, an id above `low` and below `limit`.
abbrev pub IsSpawned : Hints → ℕ → ℕ → VmCreation → Type 0
IsSpawned hint limit low child =
    (low < child.vm_id)
    × (child.vm_id < limit)
    × ((text : Text) × (find (key_of child) hint ≡ some text))

-- Every machine of the tree spawns machines with larger ids, below the limit and with a hint.
abbrev pub IsSpawnTree : Hints → ℕ → Tree → Type 0
IsSpawnTree hint limit tree = All (λ b. All (IsSpawned hint limit b.0.vm_id) b.1) tree

module _ (print : CollectorKey → List Segment → Bool → Outcome OutOfFuel (List Line)) where
  abbrev Prints : VmCreation → Type 0
  Prints child =
      (prefix : List Segment) (is_last : Bool) → IsOk (print (key_of child) prefix is_last)

  print_children-IsOk :
      (prefix : List Segment) (children : List VmCreation)
      → All Prints children
      → IsOk (print_children print prefix children)
  unfolding print_children
  print_children-IsOk prefix [] all = ([], refl)
  print_children-IsOk prefix (c ∷ []) all = all.0 (prefix ++ elbow ∷ []) true
  print_children-IsOk prefix (c ∷ d ∷ cs) all =
      let (own, run) = all.0 (prefix ++ tee ∷ []) false in
      let (rest, runs) = print_children-IsOk prefix (d ∷ cs) all.1 in
      (own ++ rest, rw (run, runs) refl)

module _ (hint : Hints) (limit : ℕ) where
  find-IsSpawned :
      (key : CollectorKey) (tree : Tree) (cs : List VmCreation)
      → IsSpawnTree hint limit tree
      → find key tree ≡ some cs
      → All (IsSpawned hint limit key.vm_id) cs
  unfolding find
  find-IsSpawned key [] cs ordered found = cc
  find-IsSpawned key ((k, ds) ∷ tree) cs ordered found = elim (Bool-cases (same_key k key)) [
    | inl same ↦
        let ids : k.vm_id ≡ key.vm_id = ground (arith, same) in
        let children : some ds ≡ some cs = rw same at found in
        let equal : ds ≡ cs = cc in
        subst (λ xs. All (IsSpawned hint limit key.vm_id) xs) equal (rw ids at ordered.0)
    | inr other ↦ find-IsSpawned key tree cs ordered.1 (rw other at found)
  ]

  module _ (tree : Tree) (ordered : IsSpawnTree hint limit tree) where
    -- Where every machine of the tree spawns only machines with larger ids, below a limit and with
    -- a hint, printing from a machine with a hint and an id below the limit gives lines, and
    -- neither panics nor runs out, with as much fuel as there are ids from that machine's to the
    -- limit.
    pub print_vm_tree_recursive-enough_fuel :
        (n : ℕ) (key : CollectorKey) (prefix : List Segment) (is_last : Bool) (text : Text)
        → find key hint ≡ some text
        → key.vm_id < limit
        → limit ≤ key.vm_id + n
        → IsOk (print_vm_tree_recursive n tree hint key prefix is_last)
    unfolding print_vm_tree_recursive
    print_vm_tree_recursive-enough_fuel zero key prefix is_last text hinted low fuel =
        absurd (omega arith)
    print_vm_tree_recursive-enough_fuel (suc n) key prefix is_last text hinted low fuel =
        elim (Option-cases (find key tree)) [
          | inl leaf ↦ (
            record { indent = prefix; key = key; hint = text } ∷ [],
            unfold print_children in rw (hinted, leaf) refl,
          )
          | inr (cs, found) ↦
              let (below, run) =
                print_children-IsOk (print_vm_tree_recursive n tree hint)
                  (new_prefix prefix is_last) cs
                  (All-map cs
                    (λ c spawned p last.
                      print_vm_tree_recursive-enough_fuel n (key_of c) p last spawned.2.0
                        spawned.2.1 spawned.1 (omega arith))
                    (find-IsSpawned key tree cs ordered found)) in
              (
                record { indent = prefix; key = key; hint = text } ∷ below,
                rw (hinted, found, run) refl,
              )
        ]
