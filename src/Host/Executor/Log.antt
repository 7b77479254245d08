-- ===== src/Host/Executor/Log.antt =====
-- src/lib.rs: what `accumulate_traces` prints, with the two vectors that it fills.
use jolt_ncp.Base.{
  ℕ, suc, Bool, true, false, List, [], ◌∷◌, ◌++◌, map, length, zip, ltb, Option, some, none, ok,
  map_err, if◌then◌else◌,
}
use jolt_ncp.Chain.{ScriptVersion, v0, v1, v2, ScriptGroupType, lock, type_script}
use jolt_ncp.Host.Types.{ScriptGroupTraces}
use jolt_ncp.Host.Text.{Text, lit, dec, hash_hex, signed}
use jolt_ncp.Host.Errors.{Stop, returned_error, program_elf_not_found}
use jolt_ncp.Host.Printed.{Printed, println, quiet, ◌>>=◌}
use jolt_ncp.Host.Crates.{Crates}
use jolt_ncp.Host.Verifier.{VerifierGroupContext, VerifierGroupMetadata, get_program_elf}
use jolt_ncp.Host.Executor.{
  CollectorKey, CollectorResult, Tracer, root_trace, is_type_id_group,
  collect_vm_syscalls_for_group, trace_data,
}

-- `{:?}` of the two enumerations and `{}` of a truth value.
abbrev pub version_debug : ScriptVersion → Text
version_debug v = lit (elim v [ v0 ↦ "V0" | v1 ↦ "V1" | v2 ↦ "V2" ]) ∷ []

abbrev pub group_type_debug : ScriptGroupType → Text
group_type_debug t = lit (elim t [ lock ↦ "Lock" | type_script ↦ "Type" ]) ∷ []

abbrev pub bool_display : Bool → Text
bool_display b = lit (if b then "true" else "false") ∷ []

abbrev pub is_some : {A : Type 0} → Option A → Bool
is_some o = elim o [ some _ ↦ true | none ↦ false ]

unfoldable pub skip_line : VerifierGroupMetadata → Text
skip_line (script_group_type, script_hash, _, _) =
    lit "Skipping Type ID script "
    ∷ (group_type_debug script_group_type
        ++ lit " hash=" ∷ hash_hex script_hash ∷ lit " (built-in, no binary)" ∷ [])

unfoldable pub key_line : CollectorKey → Text
key_line key = lit "    VM id=" ∷ dec key.vm_id ∷ lit ", generation=" ∷ dec key.generation_id ∷ []

module _ {L S : Type 0} where
  -- The number of machines, and their keys where there are several.
  unfoldable pub vm_lines : VerifierGroupMetadata → CollectorResult L S → List Text
  vm_lines (script_group_type, script_hash, _, _) result =
      let vm_count = length result.traces in
      (lit "Script "
        ∷ (group_type_debug script_group_type
            ++ lit " hash="
              ∷ hash_hex script_hash
              ∷ lit " - Total VM instances: "
              ∷ dec vm_count
              ∷ []))
      ∷ (if ltb 1 vm_count
          then (lit "  -> Child VMs detected (spawn was called)" ∷ [])
            ∷ map (λ t. key_line t.0) result.traces
          else [])

  unfoldable pub summary_line : ℕ → ScriptGroupTraces → CollectorResult L S → Text
  summary_line i st result =
      lit "script "
      ∷ dec i
      ∷ lit ": version="
      ∷ (version_debug st.script_version
          ++ lit " type="
            ∷ (group_type_debug st.script_group_type
                ++ lit " hash="
                  ∷ hash_hex st.script_hash
                  ∷ lit " exit_code="
                  ∷ signed result.exit_code
                  ∷ lit " ckb_cycles="
                  ∷ dec result.cycles
                  ∷ lit " root_trace_present="
                  ∷ (bool_display (is_some (root_trace result.traces))
                      ++ lit " total_vms=" ∷ dec (length result.traces) ∷ [])))

  -- The last loop, over the two vectors side by side.
  unfoldable pub summary_lines : ℕ → List (ScriptGroupTraces × CollectorResult L S) → List Text
  summary_lines i [] = []
  summary_lines i ((st, result) ∷ rest) = summary_line i st result ∷ summary_lines (suc i) rest

module _ {H : Type 0} (crates : Crates H) (tracer : Tracer crates) where
  open tracer use {Locator, Syscalls}

  -- `script_traces` and `collector_results`
  unfoldable pub collect_printed :
      VerifierGroupContext crates
      → List VerifierGroupMetadata
      → Printed Stop (List ScriptGroupTraces × List (CollectorResult Locator Syscalls))
  collect_printed base [] = quiet (ok ([], []))
  collect_printed base ((script_group_type, script_hash, group, script_version) ∷ groups) =
      let rest = collect_printed base groups in
      let here : VerifierGroupMetadata = (script_group_type, script_hash, group, script_version) in
      if is_type_id_group crates tracer group
      then (do _ ← println (skip_line here ∷ []); rest)
      else (do
        result ← quiet (collect_vm_syscalls_for_group crates tracer base group)
        _ ← println (vm_lines here result)
        elf ← quiet (
            map_err (λ _. returned_error program_elf_not_found)
              (get_program_elf crates base group.script))
        (script_traces, collector_results) ← rest
        quiet (
            ok (
              record {
                script_version = script_version;
                script_group_type = script_group_type;
                script_hash = script_hash;
                code_hash = group.script.code_hash;
                machine_trace_data = trace_data crates tracer result;
                machine_program_elf = elf;
              }
                  ∷ script_traces,
              result ∷ collector_results,
            )))

  unfoldable pub accumulate_printed :
      VerifierGroupContext crates
      → List VerifierGroupMetadata
      → Printed Stop (List ScriptGroupTraces)
  accumulate_printed base groups = do
    (script_traces, collector_results) ← collect_printed base groups
    _ ← println (summary_lines 0 (zip script_traces collector_results))
    quiet (ok script_traces)
