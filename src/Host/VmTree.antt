-- ===== src/Host/VmTree.antt =====
-- src/collect_vm_creation.rs: the tree of virtual machines that a script spawns, as it is printed. A
-- line is kept as its indentation, its key and its hint, and `render` is the text of it.
pub mod Fuel
pub mod Whole
pub mod Render
pub mod Collect
pub mod Drawing
pub mod Aligned
mod Examples
use jolt_ncp.Base.{
  ℕ, zero, suc, String, Bool, true, false, List, [], ◌∷◌, ◌++◌, Option, none, some, Outcome, ok,
  err, panic, ◌>>=◌, expect, traverse, add_word, ◌==◌, ◌&&◌, if◌then◌else◌,
}
use jolt_ncp.Host.Text.{Text, lit, dec}
use jolt_ncp.Host.Executor.{CollectorKey}

pub record VmCreation : Type 0 where
  pub vm_id : ℕ
  pub generation_id : ℕ

pub record BinaryLocator : Type 0 where
  pub source : ℕ
  pub index : ℕ
  pub offset : ℕ
  pub length : ℕ

abbrev pub collector_key_str : CollectorKey → Text
collector_key_str key =
    if key.generation_id == 0
    then dec key.vm_id ∷ []
    else dec key.vm_id ∷ lit "/" ∷ dec key.generation_id ∷ []

-- The match on the source, `unreachable!` for any other number.
unfoldable pub source_name : {E : Type 0} → ℕ → Outcome E String
source_name n =
    if n == 1
    then ok "input"
    else if n == 2
    then ok "output"
    else if n == 3
    then ok "cell_dep"
    else if n == 4
    then ok "header_dep"
    else if n == 0x0100_0000_0000_0001
    then ok "group_input"
    else if n == 0x0100_0000_0000_0002
    then ok "group_output"
    else panic

unfoldable pub hint_of : {E : Type 0} → BinaryLocator → Outcome E Text
hint_of l = do
  name ← source_name l.source
  ok (
      lit name
      ∷ lit "["
      ∷ dec l.index
      ∷ lit "]["
      ∷ dec l.offset
      ∷ lit ".."
      ∷ dec (add_word l.offset l.length)
      ∷ lit "]"
      ∷ [])

abbrev pub same_key : CollectorKey → CollectorKey → Bool
same_key a b = a.vm_id == b.vm_id && a.generation_id == b.generation_id

-- `get` on a map with collector keys
unfoldable pub find : {A : Type 0} → CollectorKey → List (CollectorKey × A) → Option A
find key [] = none
find key ((k, a) ∷ m) = let rest = find key m in if same_key k key then some a else rest

-- The pieces of an indentation: "├── ", "└── ", "│   " and four spaces.
pub data Segment : Type 0 where
  tee elbow bar gap : Segment

abbrev pub is_tee : Segment → Bool
is_tee s = elim s [ tee ↦ true | elbow ↦ false | bar ↦ false | gap ↦ false ]

abbrev pub is_elbow : Segment → Bool
is_elbow s = elim s [ tee ↦ false | elbow ↦ true | bar ↦ false | gap ↦ false ]

-- `trim_end_matches`
pub trim_end_matches : (Segment → Bool) → List Segment → List Segment
trim_end_matches test [] = []
trim_end_matches test (s ∷ ss) = elim (trim_end_matches test ss) [
  | [] ↦ if test s then [] else s ∷ []
  | t ∷ ts ↦ s ∷ t ∷ ts
]

-- The indentation that a machine hands to its children.
pub new_prefix : List Segment → Bool → List Segment
new_prefix [] is_last = []
new_prefix (s ∷ ss) is_last =
    trim_end_matches is_elbow (trim_end_matches is_tee (s ∷ ss))
    ++ (if is_last then gap else bar) ∷ []

pub record Line : Type 0 where
  pub indent : List Segment
  pub key : CollectorKey
  pub hint : Text

abbrev pub Tree : Type 0
Tree = List (CollectorKey × List VmCreation)

abbrev pub Hints : Type 0
Hints = List (CollectorKey × Text)

-- The recursion ran out of fuel; the program has no such result.
pub data OutOfFuel : Type 0 where
  out_of_fuel : OutOfFuel

abbrev pub key_of : VmCreation → CollectorKey
key_of child = record { vm_id = child.vm_id; generation_id = child.generation_id }

-- The loop over the children, `is_last_child` for the last.
unfoldable pub print_children :
    (CollectorKey → List Segment → Bool → Outcome OutOfFuel (List Line))
    → List Segment
    → List VmCreation
    → Outcome OutOfFuel (List Line)
print_children print prefix [] = ok []
print_children print prefix (child ∷ []) = print (key_of child) (prefix ++ elbow ∷ []) true
print_children print prefix (child ∷ next ∷ children) = do
  own ← print (key_of child) (prefix ++ tee ∷ []) false
  rest ← print_children print prefix (next ∷ children)
  ok (own ++ rest)

unfoldable pub print_vm_tree_recursive :
    ℕ → Tree → Hints → CollectorKey → List Segment → Bool → Outcome OutOfFuel (List Line)
print_vm_tree_recursive zero tree hint ckey prefix is_last = err out_of_fuel
print_vm_tree_recursive (suc n) tree hint ckey prefix is_last = do
  text ← expect (find ckey hint)
  let children : List VmCreation = elim (find ckey tree) [ some cs ↦ cs | none ↦ [] ]
  below ← print_children (print_vm_tree_recursive n tree hint) (new_prefix prefix is_last) children
  ok (record { indent = prefix; key = ckey; hint = text } ∷ below)

abbrev pub Traces : Type 0
Traces = List (CollectorKey × BinaryLocator × List VmCreation)

-- The two maps that the loop over the traces fills.
unfoldable pub hints : Traces → Outcome OutOfFuel Hints
hints traces = traverse (λ t. do text ← hint_of t.1; ok (t.0, text)) traces

unfoldable pub spawn_tree : Traces → Tree
spawn_tree [] = []
spawn_tree ((key, locator, created) ∷ traces) =
    let rest = spawn_tree traces in elim created [ [] ↦ rest | c ∷ cs ↦ (key, c ∷ cs) ∷ rest ]

-- The lines, from the root machine on, if anything was spawned.
unfoldable pub print_vm_tree : ℕ → Traces → Outcome OutOfFuel (List Line)
print_vm_tree fuel traces = do
  hint ← hints traces
  elim (spawn_tree traces) [
    | [] ↦ ok []
    | branch ∷ branches ↦
        print_vm_tree_recursive fuel (branch ∷ branches) hint
          (record { vm_id = 0; generation_id = 0 }) [] false
  ]
