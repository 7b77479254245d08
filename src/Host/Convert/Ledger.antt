-- ===== src/Host/Convert/Ledger.antt =====
-- A chain as a specification, and what the lists of a transaction become over it.
use mathlib.Core.List.{map-map}
use jolt_ncp.Base.{
  ℕ, Bool, ◌+◌, ◌≡◌, refl, ap, List, [], ◌∷◌, ◌++◌, map, length, length-map, zip, flat_map,
  range_from, arith, suc, get_elem?, some, map_err, if◌then◌else◌, Outcome-cases, inl, inr, Outcome,
  ok, traverse, All, Bytes,
}
use jolt_ncp.Chain.{Byte32, OutPoint, CellDep, CellInput, Transaction}
use jolt_ncp.Host.Text.{Text}
use jolt_ncp.Host.Rpc.{Cell}
use jolt_ncp.Host.Convert.{is_group, sub_out_point, group_out_points}
use jolt_ncp.Host.Errors.{verification_error}
use jolt_ncp.Host.Convert.Layout.{OnlyGroups}

pub traverse-ok {ℓ} :
    {E A B : Type ℓ} (f : A → Outcome E B) (g : A → B) (xs : List A)
    → All (λ x. f x ≡ ok (g x)) xs
    → traverse f xs ≡ ok (map g xs)
unfolding traverse
traverse-ok f g [] h = refl
traverse-ok f g (x ∷ xs) h = rw (h.0, traverse-ok f g xs h.1)

traverse-range_from :
    {E A : Type 0} (f : ℕ → Outcome E A) (k : ℕ) (xs : List A)
    → ((i j : ℕ) (x : A) → j ≡ k + i → get_elem? xs i ≡ some x → f j ≡ ok x)
    → traverse f (range_from k (length xs)) ≡ ok xs
unfolding traverse range_from
traverse-range_from f k [] h = refl
traverse-range_from f k (x ∷ xs) h =
    let rest =
      traverse-range_from f (suc k) xs
        (λ i j y at found. h (suc i) j y (omega (arith, at)) found) in
    rw (h 0 k x (omega arith) refl, rest) refl

-- The indices of a vector of out points give its members, so no index is missing.
traverse-sub_out_point :
    (ops : List OutPoint) → traverse (sub_out_point ops) (range_from 0 (length ops)) ≡ ok ops
unfolding sub_out_point
traverse-sub_out_point ops =
    traverse-range_from (sub_out_point ops) 0 ops
      (λ i j op same found. let at : j ≡ i = omega arith in rw (at, found) refl)

-- A dependency that is no group has no out points; a group has those that its data parses to, and
-- the only error is the parser's.
pub group_out_points-parsed :
    (out_points_of : Bytes → Outcome Text (List OutPoint)) (dep : CellDep) (cell : Cell)
    → group_out_points out_points_of (dep, cell)
      ≡ (if is_group dep then map_err verification_error (out_points_of (cell.1)) else ok [])
unfolding group_out_points
group_out_points-parsed out_points_of dep (output, data_bytes, block_hash) =
    elim (Outcome-cases (out_points_of data_bytes)) [
      | inl (ops, parsed) ↦ rw (parsed, traverse-sub_out_point ops) refl
      | inr (inl (e, failed)) ↦ rw failed refl
      | inr (inr stuck) ↦ rw stuck refl
    ]

-- What a transaction spends; a cellbase spends nothing.
abbrev pub spent : (Transaction → Bool) → Transaction → List CellInput
spent is_cellbase tx = if is_cellbase tx then [] else tx.inputs

-- The out points of the first batch.
abbrev pub main_ops : List CellInput → List CellDep → List OutPoint
main_ops ins deps = map (λ i. i.previous_output) ins ++ map (λ d. d.out_point) deps

pub length-main_ops :
    (ins : List CellInput) (deps : List CellDep)
    → length (main_ops ins deps) ≡ length ins + length deps
length-main_ops [] deps = omega (arith, length-map (λ (d : CellDep). d.out_point) deps)
length-main_ops (i ∷ ins) deps = omega (arith, length-main_ops ins deps)

-- The number of calls: one for each input, each dependency, each cell of a group and each header.
abbrev pub n_calls : (CellDep → List OutPoint) → List CellInput → Transaction → ℕ
n_calls members ins tx =
    length ins
    + length tx.cell_deps
    + length (flat_map members tx.cell_deps)
    + length tx.header_deps

-- A chain: the cell of each out point, the header of each hash, and the out points of each group.
pub record Ledger (H : Type 0) : Type 0 where
  pub cell : OutPoint → Cell
  pub header : Byte32 → H
  pub members : CellDep → List OutPoint

module _ {H : Type 0} (ledger : Ledger H)
    (out_points_of : Bytes → Outcome Text (List OutPoint)) where
  open ledger use {cell, members}

  pub traverse-groups :
      (deps : List CellDep)
      → All (λ d. group_out_points out_points_of (d, cell d.out_point) ≡ ok (members d)) deps
      → traverse (group_out_points out_points_of) (map (λ d. (d, cell d.out_point)) deps)
        ≡ ok (map members deps)
  unfolding traverse
  traverse-groups [] h = refl
  traverse-groups (d ∷ ds) h = rw (h.0, traverse-groups ds h.1)

  pub only_groups :
      (deps : List CellDep)
      → All (λ d. group_out_points out_points_of (d, cell d.out_point) ≡ ok (members d)) deps
      → All (OnlyGroups cell members) deps
  unfolding group_out_points
  only_groups [] h = tt
  only_groups (d ∷ ds) h = ((λ plain. ground (arith, h.0)), only_groups ds h.1)

module _ {H : Type 0} (ledger : Ledger H) where
  open ledger use {cell, members}

  pub flat_map-map :
      (deps : List CellDep) → flat_map (λ ops. ops) (map members deps) ≡ flat_map members deps
  flat_map-map [] = refl
  flat_map-map (d ∷ ds) = rw (flat_map-map ds)

  pub zip-map :
      (deps : List CellDep)
      → zip deps (map (λ d. cell d.out_point) deps) ≡ map (λ d. (d, cell d.out_point)) deps
  zip-map [] = refl
  zip-map (d ∷ ds) = ap (◌∷◌ (d, cell d.out_point)) (zip-map ds)

  pub cells-main_ops :
      (ins : List CellInput) (deps : List CellDep)
      → map cell (main_ops ins deps)
        ≡ map (λ i. cell i.previous_output) ins ++ map (λ d. cell d.out_point) deps
  cells-main_ops [] deps = map-map cell (λ d. d.out_point) deps
  cells-main_ops (i ∷ ins) deps = ap (◌∷◌ (cell i.previous_output)) (cells-main_ops ins deps)

  module _ (fetch : OutPoint → Outcome Text Cell) where
    known-deps :
        (deps : List CellDep)
        → All (λ d. fetch d.out_point ≡ ok (cell d.out_point)) deps
        → All (λ op. fetch op ≡ ok (cell op)) (map (λ d. d.out_point) deps)
    known-deps [] h = tt
    known-deps (d ∷ ds) h = (h.0, known-deps ds h.1)

    pub known-main_ops :
        (ins : List CellInput) (deps : List CellDep)
        → All (λ i. fetch i.previous_output ≡ ok (cell i.previous_output)) ins
        → All (λ d. fetch d.out_point ≡ ok (cell d.out_point)) deps
        → All (λ op. fetch op ≡ ok (cell op)) (main_ops ins deps)
    known-main_ops [] deps hi hd = known-deps deps hd
    known-main_ops (i ∷ ins) deps hi hd = (hi.0, known-main_ops ins deps hi.1 hd)
