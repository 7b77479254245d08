-- ===== src/Host/VmTree/Examples.antt =====
-- A root that spawns two machines, of which the first spawns a third.
use jolt_ncp.Base.{suc, ◌^◌, ◌<◌, ◌≡◌, ◌++◌, ◌>>=◌, replicate, ℕ, refl, [], ◌∷◌, arith}
use jolt_ncp.Host.Text.{Text, lit, dec}
use jolt_ncp.Host.Executor.{CollectorKey}
use jolt_ncp.Host.VmTree.{
  VmCreation, BinaryLocator, Traces, hint_of, source_name, print_vm_tree, elbow, hints, spawn_tree,
}
use jolt_ncp.Host.VmTree.Fuel.{IsOk}
use jolt_ncp.Host.VmTree.Aligned.{HasDigits, width, key_text, render-key_text}
use jolt_ncp.Host.VmTree.Drawing.{drawing, root_walk, print_vm_tree-root_walk}
use jolt_ncp.Host.VmTree.Whole.{IsRun, traced, print_vm_tree-enough_fuel}
use jolt_ncp.Host.VmTree.Render.{render, line_width, key_width, digits}

abbrev key : ℕ → CollectorKey
key n = record { vm_id = n; generation_id = 0 }

abbrev created : ℕ → VmCreation
created n = record { vm_id = n; generation_id = 0 }

abbrev locator : BinaryLocator
locator = record { source = 3; index = 0; offset = 0; length = 800 }

abbrev traces : Traces
traces =
    (key 0, locator, created 1 ∷ created 3 ∷ [])
    ∷ (key 1, locator, created 2 ∷ [])
    ∷ (key 2, locator, [])
    ∷ (key 3, locator, [])
    ∷ []

abbrev located_text : Text
located_text =
    lit "cell_dep" ∷ lit "[" ∷ dec 0 ∷ lit "][" ∷ dec 0 ∷ lit ".." ∷ dec 800 ∷ lit "]" ∷ []

traces-IsRun : IsRun 4 traces
unfolding hint_of source_name traced
traces-IsRun = record {
  located = (
    (located_text, refl),
    ((located_text, refl), ((located_text, refl), ((located_text, refl), tt))),
  );
  spawned = (
    ((omega arith, omega arith, refl), ((omega arith, omega arith, refl), tt)),
    (((omega arith, omega arith, refl), tt), (tt, (tt, tt))),
  );
  rooted = refl;
  positive = omega arith;
}

print_vm_tree-enough_fuel_example : IsOk (print_vm_tree 4 traces)
print_vm_tree-enough_fuel_example = print_vm_tree-enough_fuel 4 4 traces traces-IsRun (omega arith)

-- The line of the last machine: 17 characters, 15 spaces, a space and the hint.
last_line :
    render (record { indent = elbow ∷ []; key = key 3; hint = located_text })
    ≡ lit "Spawn tree: " ∷ lit "└── " ∷ dec 3 ∷ (replicate 15 (lit " ") ++ lit " " ∷ located_text)
unfolding render line_width key_width digits
last_line = refl

print_vm_tree-root_walk_example :
    print_vm_tree 4 traces
    ≡ (do hint ← hints traces; drawing (root_walk 4 hint (spawn_tree traces)))
print_vm_tree-root_walk_example = print_vm_tree-root_walk 4 traces

render-key_text_example :
    (n : ℕ) × (render (record { indent = elbow ∷ []; key = key 3; hint = located_text })
      ≡ key_text (record { indent = elbow ∷ []; key = key 3; hint = located_text })
        ++ (replicate n (lit " ") ++ (lit " " ∷ located_text)))
    × (width (
          key_text (record { indent = elbow ∷ []; key = key 3; hint = located_text })
          ++ replicate n (lit " "))
        ≡ 32)
    × ((k : ℕ) → k < 2 ^ 64 → (e : ℕ) × (width (dec k ∷ []) ≡ suc e) × HasDigits k e)
unfolding width digits
render-key_text_example =
    render-key_text (record { indent = elbow ∷ []; key = key 3; hint = located_text })
