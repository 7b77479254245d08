-- ===== src/Host/Convert/Layout.antt =====
-- How the results of the batches are laid out: the inputs first, then every dependency with the cells
-- of its group behind it.
use mathlib.Core.List.{map-append}
use jolt_ncp.Base.{
  ℕ, suc, ◌+◌, ◌≡◌, refl, false, List, [], ◌∷◌, ◌++◌, map, length, length-map, get_elem?, drop,
  flat_map, some, arith, ok, All, Bool-cases, inl, inr,
}
use jolt_ncp.Chain.{OutPoint, code, CellDep, CellInput}
use jolt_ncp.Host.Rpc.{Cell}
use jolt_ncp.Host.Convert.{
  MockInput, MockCellDep, mock_input, mock_cell_dep, code_dep, is_group, mock_inputs, sub_deps,
  interleave,
}

-- The list `xs` stands in `results` from index `i` on.
abbrev pub StandsAt {ℓ} : {A : Type ℓ} → List A → ℕ → List A → Type ℓ
StandsAt results i [] = Unit
StandsAt results i (x ∷ xs) = (get_elem? results i ≡ some x) × StandsAt results (suc i) xs

module _ {ℓ} {A : Type ℓ} where
  StandsAt-cons :
      (y : A) (results xs : List A) (i : ℕ)
      → StandsAt results i xs
      → StandsAt (y ∷ results) (suc i) xs
  StandsAt-cons y results [] i h = tt
  StandsAt-cons y results (x ∷ xs) i h = (h.0, StandsAt-cons y results xs (suc i) h.1)

  -- A list stands in itself, followed by anything, from 0 on.
  pub StandsAt-append : (xs ys : List A) → StandsAt (xs ++ ys) 0 xs
  StandsAt-append [] ys = tt
  StandsAt-append (x ∷ xs) ys = (refl, StandsAt-cons x (xs ++ ys) xs 0 (StandsAt-append xs ys))

  pub StandsAt-whole : (xs : List A) → StandsAt xs 0 xs
  StandsAt-whole [] = tt
  StandsAt-whole (x ∷ xs) = (refl, StandsAt-cons x xs xs 0 (StandsAt-whole xs))

  pub StandsAt-append_left :
      (results xs ys : List A) (i : ℕ) → StandsAt results i (xs ++ ys) → StandsAt results i xs
  StandsAt-append_left results [] ys i h = tt
  StandsAt-append_left results (x ∷ xs) ys i h =
      (h.0, StandsAt-append_left results xs ys (suc i) h.1)

  pub StandsAt-append_right :
      (results xs ys : List A) (i : ℕ)
      → StandsAt results i (xs ++ ys)
      → StandsAt results (i + length xs) ys
  StandsAt-append_right results [] ys i h = let e : i + 0 ≡ i = omega arith in rw e h
  StandsAt-append_right results (x ∷ xs) ys i h =
      let e : i + suc (length xs) ≡ suc i + length xs = omega arith in
      rw e (StandsAt-append_right results xs ys (suc i) h.1)

  pub drop-append : (xs ys : List A) → drop (length xs) (xs ++ ys) ≡ ys
  drop-append [] ys = refl
  drop-append (x ∷ xs) ys = drop-append xs ys

append-eq-nil {ℓ} : {A : Type ℓ} (xs ys : List A) → xs ++ ys ≡ [] → (xs ≡ []) × (ys ≡ [])
append-eq-nil [] ys h = (refl, h)
append-eq-nil (x ∷ xs) ys h = cc

module _ (cell : OutPoint → Cell) where
  pub mock_inputs-map :
      (results : List Cell) (i : ℕ) (inputs : List CellInput)
      → StandsAt results i (map (λ t. cell t.previous_output) inputs)
      → mock_inputs results i inputs ≡ ok (map (λ t. mock_input t (cell t.previous_output)) inputs)
  unfolding mock_inputs
  mock_inputs-map results i [] h = refl
  mock_inputs-map results i (t ∷ ts) h = rw (h.0, mock_inputs-map results (suc i) ts h.1)

  sub_deps-map :
      (results : List Cell) (i : ℕ) (ops : List OutPoint)
      → StandsAt results i (map cell ops)
      → sub_deps results i ops ≡ ok (map (λ op. mock_cell_dep (code_dep op) (cell op)) ops)
  unfolding sub_deps
  sub_deps-map results i [] h = refl
  sub_deps-map results i (op ∷ ops) h = rw (h.0, sub_deps-map results (suc i) ops h.1)

  -- A dependency with its cell's output, data and block hash.
  abbrev pub dep_with : CellDep → OutPoint → MockCellDep
  dep_with dep op = record {
    cell_dep = dep;
    output = (cell op).0;
    data_bytes = (cell op).1;
    header = (cell op).2;
  }

  -- An input with the output, data and block hash of the cell that it spends.
  abbrev pub input_with : CellInput → MockInput
  input_with i = record {
    input = i;
    output = (cell i.previous_output).0;
    data_bytes = (cell i.previous_output).1;
    header = (cell i.previous_output).2;
  }

  -- The specification: each dependency, followed by the cells of its group as code dependencies.
  unfoldable pub expanded : (CellDep → List OutPoint) → CellDep → List MockCellDep
  expanded subs dep =
      dep_with dep dep.out_point
      ∷ map (λ op. dep_with (record { out_point = op; dep_type = code }) op) (subs dep)

  -- A dependency that is no group has no cells behind it.
  abbrev pub OnlyGroups : (CellDep → List OutPoint) → CellDep → Type 0
  OnlyGroups subs dep = is_group dep ≡ false → subs dep ≡ []

  -- When the cells of the groups stand in the results from an index on, in order, and a dependency
  -- that is no group has none, the loop over the dependencies gives each of them followed by the
  -- cells of its group, in order, as dependencies of type `code`, with their outputs, data and
  -- block hashes.
  pub interleave-expanded :
      (subs : CellDep → List OutPoint) (results : List Cell) (i : ℕ) (deps : List CellDep)
      → All (OnlyGroups subs) deps
      → StandsAt results i (map cell (flat_map subs deps))
      → interleave results i (map (λ d. (d, cell d.out_point)) deps) (map subs deps)
        ≡ ok (flat_map (expanded subs) deps)
  unfolding interleave expanded
  interleave-expanded subs results i [] g h = refl
  interleave-expanded subs results i (d ∷ ds) g h = elim (Bool-cases (is_group d)) [
    | inl group ↦
        let parts = rw map-append at h in
        let here = StandsAt-append_left results (map cell (subs d)) _ i parts in
        let there = StandsAt-append_right results (map cell (subs d)) _ i parts in
        rw (
          group,
          sub_deps-map results i (subs d) here,
          interleave-expanded subs results (i + length (subs d)) ds g.1
              (rw (length-map cell (subs d)) at there),
        )
    | inr plain ↦
        let empty = g.0 plain in
        rw (plain, empty, interleave-expanded subs results i ds g.1 (rw empty at h))
  ]

  -- Where no group has a cell, the plain loop gives the same list.
  pub flat_map-expanded_nil :
      (subs : CellDep → List OutPoint) (deps : List CellDep)
      → flat_map subs deps ≡ []
      → flat_map (expanded subs) deps ≡ map (λ d. mock_cell_dep d (cell d.out_point)) deps
  unfolding expanded
  flat_map-expanded_nil subs [] h = refl
  flat_map-expanded_nil subs (d ∷ ds) h =
      let (here, there) = append-eq-nil (subs d) (flat_map subs ds) h in
      rw (here, flat_map-expanded_nil subs ds there)
