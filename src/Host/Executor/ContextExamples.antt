-- ===== src/Host/Executor/ContextExamples.antt =====
-- Both contexts of one transaction with two programs, for a script that names the second.
use mathlib.Core.Path.{subst}
use jolt_ncp.Base.{ℕ, ◌≡◌, refl, List, [], ◌∷◌, map, some, ok, All, Bytes, traverse}
use jolt_ncp.Chain.{v1, v2, type_script}
use jolt_ncp.Host.Node.{transaction_at}
use jolt_ncp.Host.Convert.{MockTransaction, MockCellDep}
use jolt_ncp.Host.Crates.{Crates, CellMeta}
use jolt_ncp.Host.Verifier.{
  VerifierContext, VerifierGroupContext, from_mock_transaction, from_mock_transaction_with_groups,
  get_program_elf, elf_by_hash, program_dep, program_search, by_type_hash, resolved_program,
  verifier_consensus,
}
use jolt_ncp.Host.Verifier.Contexts.{KeepsData, get_program_elf-from_mock_transaction}
use jolt_ncp.Host.Executor.Examples.{crates, script, deps}

abbrev resolved_cells : List MockCellDep → List CellMeta
resolved_cells ds =
    map (λ d. record { out_point = d.cell_dep.out_point; mem_cell_data = some d.data_bytes }) ds

abbrev resolving : Crates ℕ
resolving = record crates {
  Resolved = List CellMeta;
  resolve_transaction = λ tx r. ok (resolved_cells tx.cell_deps);
  resolved_cell_deps = λ r. r;
  verifier = λ a b c d. tt;
  find_script_group = λ v t h. some (record { script = script 2006 });
}

abbrev mock : MockTransaction ℕ
mock = record { inputs = []; cell_deps = deps; header_deps = []; tx = transaction_at 70 }

mock-KeepsData : KeepsData resolving mock
unfolding resolved_program
mock-KeepsData resource resolved resourced resolves =
    let same : resolved_cells deps ≡ resolved = cc in
    subst
      (λ r.
        All
          (λ (d : MockCellDep).
            (bs : Bytes) → resolved_program d.cell_dep.out_point r ≡ some bs → bs ≡ d.data_bytes)
          deps)
      same ((λ bs held. cc), ((λ bs held. cc), tt))

abbrev script_context : VerifierContext resolving
script_context = record {
  script_resolve_transaction = resolved_cells deps;
  script_resource = tt;
  script_program_elf = 6 ∷ 0 ∷ [];
  script_consensus = (20, 30);
  script_tx_env = (25, 0, 1);
  script_group = record { script = script 2006 };
  script_scheduler = tt;
  script_sg_data = tt;
}

abbrev group_context : VerifierGroupContext resolving
group_context = record {
  group_resolve_transaction = resolved_cells deps;
  group_resource = tt;
  group_consensus = (20, 30);
  group_tx_env = (35, 0, 1);
  cell_dep_data_hash_to_elf = elf_by_hash resolving deps;
}

script_context_built :
    from_mock_transaction resolving mock (script 2006) v1 type_script 33 ≡ ok script_context
unfolding from_mock_transaction program_dep program_search by_type_hash resolved_program
    verifier_consensus
script_context_built = refl

group_context_built : from_mock_transaction_with_groups resolving mock v2 ≡ ok (group_context, [])
unfolding from_mock_transaction_with_groups verifier_consensus traverse
group_context_built = refl

get_program_elf-from_mock_transaction_example :
    get_program_elf resolving group_context (script 2006) ≡ ok (6 ∷ 0 ∷ [])
get_program_elf-from_mock_transaction_example =
    get_program_elf-from_mock_transaction resolving mock (script 2006) v1 v2 type_script 33
      script_context group_context [] mock-KeepsData script_context_built group_context_built
      ((λ e. cc), ((λ e. refl), tt))
