-- ===== src/Host/VmTree/Whole.antt =====
-- The whole print, from the traces of a run.
use jolt_ncp.Base.{
  ℕ, ◌<◌, ◌≤◌, ◌≡◌, refl, Bool, true, false, ◌||◌, List, [], ◌∷◌, some, ok, All, All-map, arith,
  traverse, Bool-cases, inl, inr,
}
use jolt_ncp.Host.Text.{Text}
use jolt_ncp.Host.Executor.{CollectorKey}
use jolt_ncp.Host.VmTree.{
  VmCreation, Tree, Hints, Traces, OutOfFuel, find, same_key, key_of, hint_of, hints, spawn_tree,
  print_vm_tree_recursive, print_vm_tree,
}
use jolt_ncp.Host.VmTree.Fuel.{IsOk, IsSpawnTree, IsSpawned, print_vm_tree_recursive-enough_fuel}

-- A machine that is among the traced ones.
unfoldable pub traced : CollectorKey → Traces → Bool
traced key [] = false
traced key ((k, _, _) ∷ ts) = same_key k key || traced key ts

abbrev pub IsTraced : Traces → CollectorKey → Type 0
IsTraced traces key = traced key traces ≡ true

abbrev HasHint : Hints → CollectorKey → Type 0
HasHint hs key = (text : Text) × (find key hs ≡ some text)

-- What the tracer brings: every locator names a source, and a machine spawns traced machines with
-- larger ids, below a limit.
pub record IsRun (limit : ℕ) (traces : Traces) : Type 0 where
  pub located : All (λ t. (text : Text) × (hint_of {E = OutOfFuel} t.1 ≡ ok text)) traces
  pub spawned :
      All
        (λ t. All (λ c. (t.0.vm_id < c.vm_id) × (c.vm_id < limit) × IsTraced traces (key_of c)) t.2)
        traces
  pub rooted : IsTraced traces (record { vm_id = 0; generation_id = 0 })
  pub positive : 0 < limit

-- Every traced machine gets a hint.
hints-HasHint :
    (traces : Traces)
    → All (λ t. (text : Text) × (hint_of {E = OutOfFuel} t.1 ≡ ok text)) traces
    → (hs : Hints) × (hints traces ≡ ok hs)
      × ((key : CollectorKey) → IsTraced traces key → HasHint hs key)
unfolding traverse find hints traced
hints-HasHint [] h = ([], refl, λ key known. cc)
hints-HasHint ((k, locator, created) ∷ ts) h =
    let (text, found) = h.0 in
    let (hs, run, covers) = hints-HasHint ts h.1 in
    (
      (k, text) ∷ hs,
      rw (found, run) refl,
      λ key known. elim (Bool-cases (same_key k key)) [
        | inl same ↦ (text, rw same refl)
        | inr other ↦
            let (inner, at_inner) = covers key (rw other at known) in
            (inner, rw (other, at_inner) refl)
      ],
    )

-- The children of a traced machine, with the hints.
children-IsSpawned :
    (limit low : ℕ) (traces : Traces) (hs : Hints) (cs : List VmCreation)
    → ((key : CollectorKey) → IsTraced traces key → HasHint hs key)
    → All (λ c. (low < c.vm_id) × (c.vm_id < limit) × IsTraced traces (key_of c)) cs
    → All (IsSpawned hs limit low) cs
children-IsSpawned limit low traces hs cs covers h =
    All-map cs (λ c known. (known.0, known.1, covers (key_of c) known.2)) h

spawn_tree-IsSpawnTree :
    (limit : ℕ) (all traces : Traces) (hs : Hints)
    → ((key : CollectorKey) → IsTraced all key → HasHint hs key)
    → All
        (λ t. All (λ c. (t.0.vm_id < c.vm_id) × (c.vm_id < limit) × IsTraced all (key_of c)) t.2)
        traces
    → IsSpawnTree hs limit (spawn_tree traces)
unfolding spawn_tree
spawn_tree-IsSpawnTree limit all [] hs covers h = tt
spawn_tree-IsSpawnTree limit all ((k, l, []) ∷ ts) hs covers h =
    spawn_tree-IsSpawnTree limit all ts hs covers h.1
spawn_tree-IsSpawnTree limit all ((k, l, c ∷ cs) ∷ ts) hs covers h = (
  children-IsSpawned limit k.vm_id all hs (c ∷ cs) covers h.0,
  spawn_tree-IsSpawnTree limit all ts hs covers h.1,
)

print_branches :
    (limit fuel : ℕ) (hs : Hints) (tree : Tree)
    → IsSpawnTree hs limit tree
    → HasHint hs (record { vm_id = 0; generation_id = 0 })
    → 0 < limit
    → limit ≤ fuel
    → IsOk (elim tree [
      | [] ↦ ok []
      | branch ∷ branches ↦
          print_vm_tree_recursive fuel
            (branch ∷ branches)
            hs
            (record { vm_id = 0; generation_id = 0 })
            []
            false
    ])
print_branches limit fuel hs [] ordered root pos enough = ([], refl)
print_branches limit fuel hs (b ∷ bs) ordered root pos enough =
    print_vm_tree_recursive-enough_fuel hs limit (b ∷ bs) ordered fuel
      (record { vm_id = 0; generation_id = 0 }) [] false root.0 root.1 (omega arith) (omega arith)

-- Where every locator names a source, every machine spawns traced machines with larger ids below a
-- limit only, and the root is traced, printing the tree of the traces gives lines, and neither
-- panics nor runs out, with as much fuel as the limit.
pub print_vm_tree-enough_fuel :
    (limit fuel : ℕ) (traces : Traces)
    → IsRun limit traces
    → limit ≤ fuel
    → IsOk (print_vm_tree fuel traces)
unfolding print_vm_tree
print_vm_tree-enough_fuel limit fuel traces run enough =
    let (hs, filled, covers) = hints-HasHint traces run.located in
    rw filled (
      print_branches limit fuel hs (spawn_tree traces)
        (spawn_tree-IsSpawnTree limit traces traces hs covers run.spawned)
        (covers (record { vm_id = 0; generation_id = 0 }) run.rooted) run.positive enough)
