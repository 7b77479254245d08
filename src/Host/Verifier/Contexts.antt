-- ===== src/Host/Verifier/Contexts.antt =====
-- The programs that the two contexts of one transaction name for a script.
use jolt_ncp.Base.{
  ◌≡◌, ap, sym, ◌∙◌, true, List, some, All, All-map, Outcome, ok, err, panic, traverse, Bytes,
  Option-cases, Outcome-cases, inl, inr, ◌>>=◌, map_err, ok_or,
}
use jolt_ncp.Chain.{Byte32, Script, ScriptGroupType, ScriptVersion}
use jolt_ncp.Host.Convert.{MockTransaction, MockCellDep}
use jolt_ncp.Host.Text.{lit, msg}
use jolt_ncp.Host.Errors.{HostError, script_error}
use jolt_ncp.Host.Crates.{Crates, ScriptHashType}
use jolt_ncp.Host.Verifier.{
  VerifierGroupContext, VerifierGroupMetadata, VerifierContext, elf_by_hash, get_program_elf,
  program_search, program_dep, resolved_program, verifier_consensus, with_version, verifier_epoch,
  from_mock_transaction, from_mock_transaction_with_groups,
}
use jolt_ncp.Host.Verifier.Programs.{answers, program_search-All, get_program_elf-search}

module _ {H : Type 0} (crates : Crates H) where
  open crates use {
    Resource, Resolved, blake2b_256, calc_script_hash, script_hash_type, resource_of,
    resolve_transaction, resolved_cell_deps, new_commit, verifier, groups_with_type,
    find_script_group, create_scheduler, Consensus, sg_data,
  }

  -- What a resolved transaction holds under a dependency's out point is the dependency's data.
  abbrev pub KeepsData : MockTransaction H → Type 0
  KeepsData mock =
      (resource : Resource) (resolved : Resolved)
      → resource_of mock ≡ ok resource
      → resolve_transaction mock resource ≡ ok resolved
      → All
          (λ d.
            (bs : Bytes)
            → resolved_program d.cell_dep.out_point (resolved_cell_deps resolved) ≡ some bs
            → bs ≡ d.data_bytes)
          mock.cell_deps

  program_dep-search :
      (script : Script) (deps : List MockCellDep) (dep : MockCellDep)
      → program_dep crates script deps ≡ ok dep
      → (t : ScriptHashType) × (program_search crates t script.code_hash deps ≡ some dep)
  unfolding program_dep
  program_dep-search script deps dep found =
      elim (Outcome-cases (script_hash_type script.hash_type)) [
        | inl (t, known) ↦ elim (Option-cases (program_search crates t script.code_hash deps)) [
          | inl absent ↦ cc
          | inr (d, hit) ↦ (t, cc)
        ]
        | inr (inl (e, unknown)) ↦ cc
        | inr (inr stuck) ↦ cc
      ]

  -- The dependency and the resolved transaction behind a script's context.
  record HasProgram (mock : MockTransaction H) (script : Script) (elf : Bytes) : Type 0 where
    resource : Resource
    resolved : Resolved
    dep : MockCellDep
    resourced : resource_of mock ≡ ok resource
    resolves : resolve_transaction mock resource ≡ ok resolved
    searched : program_dep crates script mock.cell_deps ≡ ok dep
    held : resolved_program dep.cell_dep.out_point (resolved_cell_deps resolved) ≡ some elf

  -- The stages behind the program keep it.
  finished-elf :
      (rules : Outcome HostError Consensus) (resource : Resource) (resolved : Resolved)
      (elf : Bytes) (v : ScriptVersion) (t : ScriptGroupType) (h : Byte32)
      (ctx : VerifierContext crates)
      → (do
        found ← rules
        let env = new_commit (verifier_epoch v)
        let checker = verifier resolved resource found env
        group ← ok_or (find_script_group checker t h) (script_error (msg "script group not found"))
        scheduler ← map_err script_error (create_scheduler checker group)
        ok (record {
          script_resolve_transaction = resolved;
          script_resource = resource;
          script_program_elf = elf;
          script_consensus = found;
          script_tx_env = env;
          script_group = group;
          script_scheduler = scheduler;
          script_sg_data = sg_data scheduler;
        }))
        ≡ ok ctx
      → elf ≡ ctx.script_program_elf
  finished-elf (err e) resource resolved elf v t h ctx built = cc
  finished-elf panic resource resolved elf v t h ctx built = cc
  finished-elf (ok rules) resource resolved elf v t h ctx built =
      let checker = verifier resolved resource rules (new_commit (verifier_epoch v)) in
      elim (Option-cases (find_script_group checker t h)) [
        | inl absent ↦ cc
        | inr (group, grouped) ↦ elim (Outcome-cases (create_scheduler checker group)) [
          | inl (scheduler, created) ↦ cc
          | inr (inl (e, failed)) ↦ cc
          | inr (inr stuck) ↦ cc
        ]
      ]

  from_mock_transaction-HasProgram :
      (mock : MockTransaction H) (script : Script) (v : ScriptVersion) (t : ScriptGroupType)
      (h : Byte32) (ctx : VerifierContext crates)
      → from_mock_transaction crates mock script v t h ≡ ok ctx
      → HasProgram mock script ctx.script_program_elf
  unfolding from_mock_transaction
  from_mock_transaction-HasProgram mock script v t h ctx built =
      elim (Outcome-cases (resource_of mock)) [
        | inl (resource, resourced) ↦ elim (Outcome-cases (resolve_transaction mock resource)) [
          | inl (resolved, resolves) ↦
              elim (Outcome-cases (program_dep crates script mock.cell_deps)) [
                | inl (dep, searched) ↦
                    elim (Option-cases
                      (resolved_program dep.cell_dep.out_point (resolved_cell_deps resolved))) [
                        | inr (elf, held) ↦ record {
                          resource = resource;
                          resolved = resolved;
                          dep = dep;
                          resourced = resourced;
                          resolves = resolves;
                          searched = searched;
                          held =
                              held
                              ∙ ap some (
                                  finished-elf
                                    (verifier_consensus crates (lit "CKB2023 build failed: "))
                                    resource resolved elf v t h ctx
                                    (rw (resourced, resolves, searched, held) at built));
                        }
                        | inl missing ↦ cc
                      ]
                | inr (inl (e, failed)) ↦ cc
                | inr (inr stuck) ↦ cc
              ]
          | inr (inl (e, failed)) ↦ cc
          | inr (inr stuck) ↦ cc
        ]
        | inr (inl (e, failed)) ↦ cc
        | inr (inr stuck) ↦ cc
      ]

  from_mock_transaction_with_groups-table :
      (mock : MockTransaction H) (v : ScriptVersion) (base : VerifierGroupContext crates)
      (groups : List VerifierGroupMetadata)
      → from_mock_transaction_with_groups crates mock v ≡ ok (base, groups)
      → base.cell_dep_data_hash_to_elf ≡ elf_by_hash crates mock.cell_deps
  unfolding from_mock_transaction_with_groups
  from_mock_transaction_with_groups-table mock v base groups built =
      elim (Outcome-cases (resource_of mock)) [
        | inl (resource, resourced) ↦ elim (Outcome-cases (resolve_transaction mock resource)) [
          | inl (resolved, resolves) ↦
              elim (Outcome-cases (verifier_consensus crates (lit "CKB2021 build failed: "))) [
                | inl (rules, ruled) ↦
                    let found = verifier resolved resource rules (new_commit (verifier_epoch v)) in
                    elim (Outcome-cases
                      (traverse (with_version crates found) (groups_with_type found))) [
                        | inl (versions, selected) ↦ cc
                        | inr (inl (e, failed)) ↦ cc
                        | inr (inr stuck) ↦ cc
                      ]
                | inr (inl (e, failed)) ↦ cc
                | inr (inr stuck) ↦ cc
              ]
          | inr (inl (e, failed)) ↦ cc
          | inr (inr stuck) ↦ cc
        ]
        | inr (inl (e, failed)) ↦ cc
        | inr (inr stuck) ↦ cc
      ]

  -- Where both contexts of one mock transaction succeed, what a resolved transaction holds under a
  -- dependency's out point is that dependency's data, and every dependency whose data hash or type
  -- script hash is the script's code hash carries the script context's program, the lookup in the
  -- group context's table gives the program of the script's context.
  pub get_program_elf-from_mock_transaction :
      (mock : MockTransaction H) (script : Script) (v w : ScriptVersion) (t : ScriptGroupType)
      (h : Byte32) (ctx : VerifierContext crates) (base : VerifierGroupContext crates)
      (groups : List VerifierGroupMetadata)
      → KeepsData mock
      → from_mock_transaction crates mock script v t h ≡ ok ctx
      → from_mock_transaction_with_groups crates mock w ≡ ok (base, groups)
      → All
          (λ d. answers crates script.code_hash d ≡ true → d.data_bytes ≡ ctx.script_program_elf)
          mock.cell_deps
      → get_program_elf crates base script ≡ ok ctx.script_program_elf
  get_program_elf-from_mock_transaction mock script v w t h ctx base groups keeps built grouped
        agree =
      let p = from_mock_transaction-HasProgram mock script v t h ctx built in
      let (kind, found) = program_dep-search script mock.cell_deps p.dep p.searched in
      let same : ctx.script_program_elf ≡ p.dep.data_bytes =
        program_search-All crates
          (λ d.
            (bs : Bytes)
            → resolved_program d.cell_dep.out_point (resolved_cell_deps p.resolved) ≡ some bs
            → bs ≡ d.data_bytes)
          kind script.code_hash p.dep mock.cell_deps
          (keeps p.resource p.resolved p.resourced p.resolves) found ctx.script_program_elf
          p.held in
      get_program_elf-search crates base script mock.cell_deps kind p.dep
        (from_mock_transaction_with_groups-table mock w base groups grouped) found
        (All-map mock.cell_deps (λ d known hit. known hit ∙ same) agree)
      ∙ ap ok (sym same)
