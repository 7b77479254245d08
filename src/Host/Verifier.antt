-- ===== src/Host/Verifier.antt =====
-- src/vefier_context.rs: the context that all script groups share, with its table of programs, and
-- the context of one script.
pub mod Programs
pub mod Contexts
use jolt_ncp.Base.{
  ℕ, List, [], ◌∷◌, map, foldl, Option, none, some, Outcome, ok, err, panic, ◌>>=◌, map_err, ok_or,
  expect, traverse, Bytes, lookup, insert, ◌==◌, ◌&&◌, if◌then◌else◌, Bool, true, false,
}
use jolt_ncp.Chain.{
  Byte32, Script, ScriptGroup, ScriptGroupType, ScriptVersion, v0, v1, v2, OutPoint, CellDep,
  CellOutput,
}
use jolt_ncp.Host.Text.{Text, msg, Piece, lit}
use jolt_ncp.Host.Errors.{
  HostError, verifier_resource, verifier_outpoint_error, verifier_context_creation,
  program_elf_not_found, script_error,
}
use jolt_ncp.Host.Convert.{MockTransaction, MockCellDep}
use jolt_ncp.Host.Crates.{
  ScriptHashType, data_hash, data1_hash, data2_hash, type_hash, further_hash, CellMeta, Crates,
}

-- The epoch at which a version of the virtual machine is selected.
abbrev pub verifier_epoch : ScriptVersion → ℕ × ℕ × ℕ
verifier_epoch v0 = (15, 0, 1)
verifier_epoch v1 = (25, 0, 1)
verifier_epoch v2 = (35, 0, 1)

abbrev pub VerifierGroupMetadata : Type 0
VerifierGroupMetadata = ScriptGroupType × Byte32 × ScriptGroup × ScriptVersion

abbrev pub same_out_point : OutPoint → OutPoint → Bool
same_out_point a b = a.tx_hash == b.tx_hash && a.index == b.index

-- The search of the resolved dependencies, which stops at the first with the out point.
unfoldable pub resolved_program : OutPoint → List CellMeta → Option Bytes
resolved_program op [] = none
resolved_program op (e ∷ es) =
    let rest = resolved_program op es in
    if same_out_point e.out_point op then e.mem_cell_data else rest

module _ {H : Type 0} (crates : Crates H) where
  open crates use {
    Resource, Resolved, Consensus, TxVerifyEnv, Verifier, Scheduler, SgData, blake2b_256,
    calc_script_hash, script_hash_type, resource_of, resolve_transaction, resolved_cell_deps,
    build_ckb2021, build_ckb2023, consensus, new_commit, verifier, groups_with_type, select_version,
    find_script_group, create_scheduler, sg_data,
  }

  pub record VerifierGroupContext : Type 0 where
    pub group_resolve_transaction : Resolved
    pub group_resource : Resource
    pub group_consensus : Consensus
    pub group_tx_env : TxVerifyEnv
    pub cell_dep_data_hash_to_elf : List (Byte32 × Bytes)

  -- The body of the loop that fills the table: by data hash, then by the hash of the type script.
  unfoldable pub insert_cell_dep : List (Byte32 × Bytes) → MockCellDep → List (Byte32 × Bytes)
  insert_cell_dep elf_by_hash cell_dep =
      let by_data = insert (blake2b_256 cell_dep.data_bytes) cell_dep.data_bytes elf_by_hash in
      elim cell_dep.output.type_ [
        | none ↦ by_data
        | some type_script ↦ insert (calc_script_hash type_script) cell_dep.data_bytes by_data
      ]

  unfoldable pub elf_by_hash : List MockCellDep → List (Byte32 × Bytes)
  elf_by_hash cell_deps = foldl insert_cell_dep [] cell_deps

  -- The consensus with its two hard forks. The two contexts report the failure of the second build
  -- by different texts.
  unfoldable pub verifier_consensus : Piece → Outcome HostError Consensus
  verifier_consensus ckb2023_failed = do
    ckb2021 ←
        map_err (λ e. verifier_context_creation (lit "CKB2021 build failed: " ∷ e))
          (build_ckb2021 20)
    ckb2023 ← map_err (λ e. verifier_context_creation (ckb2023_failed ∷ e)) (build_ckb2023 30)
    ok (consensus ckb2021 ckb2023)

  -- A group with the version that the verifier selects for it.
  unfoldable pub with_version :
      Verifier → ScriptGroupType × Byte32 × ScriptGroup → Outcome HostError VerifierGroupMetadata
  with_version v (t, h, g) = do
    version ← map_err script_error (select_version v g.script)
    ok (t, h, g, version)

  unfoldable pub from_mock_transaction_with_groups :
      MockTransaction H
      → ScriptVersion
      → Outcome HostError (VerifierGroupContext × List VerifierGroupMetadata)
  from_mock_transaction_with_groups mock_transaction epoch_for_version_selection = do
    resource ← map_err verifier_resource (resource_of mock_transaction)
    resolved ← map_err verifier_outpoint_error (resolve_transaction mock_transaction resource)
    rules ← verifier_consensus (lit "CKB2021 build failed: ")
    let tx_env = new_commit (verifier_epoch epoch_for_version_selection)
    let v = verifier resolved resource rules tx_env
    groups ← traverse (with_version v) (groups_with_type v)
    ok (
      record {
        group_resolve_transaction = resolved;
        group_resource = resource;
        group_consensus = rules;
        group_tx_env = tx_env;
        cell_dep_data_hash_to_elf = elf_by_hash mock_transaction.cell_deps;
      },
      groups,
    )

  unfoldable pub get_program_elf : VerifierGroupContext → Script → Outcome HostError Bytes
  get_program_elf ctx verifier_script =
      ok_or (lookup verifier_script.code_hash ctx.cell_dep_data_hash_to_elf) program_elf_not_found

  pub record VerifierContext : Type 0 where
    pub script_resolve_transaction : Resolved
    pub script_resource : Resource
    pub script_program_elf : Bytes
    pub script_consensus : Consensus
    pub script_tx_env : TxVerifyEnv
    pub script_group : ScriptGroup
    pub script_scheduler : Scheduler
    pub script_sg_data : SgData

  -- The first dependency whose data has a hash, and the first whose type script has it.
  unfoldable pub by_data_hash : Byte32 → List MockCellDep → Option MockCellDep
  by_data_hash h [] = none
  by_data_hash h (e ∷ es) =
      let rest = by_data_hash h es in if blake2b_256 e.data_bytes == h then some e else rest

  unfoldable pub by_type_hash : Byte32 → List MockCellDep → Option MockCellDep
  by_type_hash h [] = none
  by_type_hash h (e ∷ es) =
      let rest = by_type_hash h es in
      elim e.output.type_ [
        | none ↦ rest
        | some kype ↦ if calc_script_hash kype == h then some e else rest
      ]

  unfoldable pub program_search : ScriptHashType → Byte32 → List MockCellDep → Option MockCellDep
  program_search data_hash h cell_deps = by_data_hash h cell_deps
  program_search data1_hash h cell_deps = by_data_hash h cell_deps
  program_search data2_hash h cell_deps = by_data_hash h cell_deps
  program_search type_hash h cell_deps = by_type_hash h cell_deps
  program_search further_hash h cell_deps = none

  -- The dependency with a script's program; `unreachable!` where there is none.
  unfoldable pub program_dep : Script → List MockCellDep → Outcome HostError MockCellDep
  program_dep script cell_deps = do
    hash_type ←
        map_err (λ e. script_error (lit "invalid script hash type: " ∷ e))
          (script_hash_type script.hash_type)
    expect (program_search hash_type script.code_hash cell_deps)

  unfoldable pub from_mock_transaction :
      MockTransaction H
      → Script
      → ScriptVersion
      → ScriptGroupType
      → Byte32
      → Outcome HostError VerifierContext
  from_mock_transaction mock_transaction script script_version script_group_type script_hash = do
    resource ← map_err verifier_resource (resource_of mock_transaction)
    resolved ← map_err verifier_outpoint_error (resolve_transaction mock_transaction resource)
    dep ← program_dep script mock_transaction.cell_deps
    program_elf ←
        ok_or (resolved_program dep.cell_dep.out_point (resolved_cell_deps resolved))
          program_elf_not_found
    rules ← verifier_consensus (lit "CKB2023 build failed: ")
    let tx_env = new_commit (verifier_epoch script_version)
    let v = verifier resolved resource rules tx_env
    group ←
        ok_or (find_script_group v script_group_type script_hash)
          (script_error (msg "script group not found"))
    scheduler ← map_err script_error (create_scheduler v group)
    ok (record {
      script_resolve_transaction = resolved;
      script_resource = resource;
      script_program_elf = program_elf;
      script_consensus = rules;
      script_tx_env = tx_env;
      script_group = group;
      script_scheduler = scheduler;
      script_sg_data = sg_data scheduler;
    })
