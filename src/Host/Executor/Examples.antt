-- ===== src/Host/Executor/Examples.antt =====
-- A table of two programs, three script groups of which one is built in, and their packing.
use jolt_ncp.Base.{
  ℕ, ◌+◌, ◌≡◌, refl, List, [], ◌∷◌, map, none, some, arith, ok, Bytes, lookup, insert, ok_or, All,
}
use jolt_ncp.Chain.{Script, v1, v2, lock, type_script, code}
use jolt_ncp.Guest.Types as Guest
use jolt_ncp.Host.Pack.{to_guest}
use jolt_ncp.Host.Pack.Faithful.{AllCarry}
use jolt_ncp.Host.Errors.{Stop, program_elf_not_found}
use jolt_ncp.Host.Convert.{MockCellDep}
use jolt_ncp.Host.Crates.{Crates, type_hash}
use jolt_ncp.Host.Verifier.{
  VerifierGroupContext, VerifierGroupMetadata, insert_cell_dep, elf_by_hash, get_program_elf,
}
use jolt_ncp.Host.Verifier.Programs.{last_program, get_program_elf-last}
use jolt_ncp.Host.Executor.{CollectorResult, Tracer, is_type_id_script, is_type_id_group}
use jolt_ncp.Host.Executor.Traces.{
  kept, Traced, trace_of, accumulate_traces-kept, accumulate_traces-to_guest,
}

abbrev first_byte : Bytes → ℕ
first_byte [] = 0
first_byte (b ∷ bs) = b

abbrev pub crates : Crates ℕ
crates = record {
  Resource = Unit {0};
  Resolved = Unit {0};
  Hardfork2021 = ℕ;
  Hardfork2023 = ℕ;
  Consensus = ℕ × ℕ;
  TxVerifyEnv = ℕ × ℕ × ℕ;
  Verifier = Unit {0};
  Scheduler = Unit {0};
  SgData = Unit {0};
  blake2b_256 = λ bs. first_byte bs + 1000;
  calc_script_hash = λ s. s.code_hash + 2000;
  script_hash_type = λ n. ok type_hash;
  resource_of = λ tx. ok tt;
  resolve_transaction = λ tx r. ok tt;
  resolved_cell_deps = λ r. [];
  build_ckb2021 = λ n. ok n;
  build_ckb2023 = λ n. ok n;
  consensus = λ a b. (a, b);
  new_commit = λ e. e;
  verifier = λ a b c d. tt;
  groups_with_type = λ v. [];
  select_version = λ v s. ok v1;
  find_script_group = λ v t h. none;
  create_scheduler = λ v g. ok tt;
  sg_data = λ s. tt;
}

abbrev pub tracer : Tracer crates
tracer = record {
  Locator = Unit {0};
  Syscalls = ℕ;
  type_id_code_hash = 7777;
  type_hash_byte = 1;
  into_bytes = λ n. n ∷ [];
  collect = λ base g. ok (record {
    exit_code = 0;
    cycles = 100;
    traces = (record { vm_id = 0; generation_id = 0 }, tt, g.script.code_hash) ∷ [];
  });
}

abbrev pub script : ℕ → Script
script h = record { code_hash = h; hash_type = 1; args = [] }

abbrev pub program_cell : ℕ → MockCellDep
program_cell b = record {
  cell_dep = record { out_point = record { tx_hash = b; index = 0 }; dep_type = code };
  output = record { capacity = 1; lock_script = script 1; type_ = some (script b) };
  data_bytes = b ∷ 0 ∷ [];
  header = none;
}

abbrev pub deps : List MockCellDep
deps = program_cell 5 ∷ program_cell 6 ∷ []

abbrev pub base : VerifierGroupContext crates
base = record {
  group_resolve_transaction = tt;
  group_resource = tt;
  group_consensus = (20, 30);
  group_tx_env = (35, 0, 1);
  cell_dep_data_hash_to_elf = elf_by_hash crates deps;
}

get_program_elf-last_example :
    get_program_elf crates base (script 1005)
    ≡ ok_or (last_program crates 1005 deps) program_elf_not_found
get_program_elf-last_example = get_program_elf-last crates base (script 1005) deps refl

abbrev pub groups : List VerifierGroupMetadata
groups =
    (lock, 31, record { script = script 1005 }, v1)
    ∷ (type_script, 32, record { script = script 7777 }, v2)
    ∷ (type_script, 33, record { script = script 2006 }, v2)
    ∷ []

abbrev pub program_of : VerifierGroupMetadata → Bytes
program_of (lock, _, _, _) = 5 ∷ 0 ∷ []
program_of (type_script, _, _, _) = 6 ∷ 0 ∷ []

abbrev pub collected : VerifierGroupMetadata → CollectorResult (Unit {0}) ℕ
collected m = record {
  exit_code = 0;
  cycles = 100;
  traces = (record { vm_id = 0; generation_id = 0 }, tt, m.2.script.code_hash) ∷ [];
}

pub groups-Traced :
    All (Traced crates tracer base collected program_of) (kept crates tracer base groups)
unfolding kept is_type_id_group is_type_id_script get_program_elf elf_by_hash insert_cell_dep insert
    lookup
groups-Traced = ((refl, refl), ((refl, refl), tt))

accumulate_traces-to_guest_example :
    (g : Guest.TransactionProofContext) × (to_guest {E = Stop} (record {
      transaction = 9 ∷ [];
      vm_traces =
          map (trace_of crates tracer base collected program_of) (kept crates tracer base groups);
    })
      ≡ ok g)
    × (g.raw_transaction_bytes ≡ 9 ∷ [])
    × AllCarry g.machine_program_elfs
        (λ t. lookup t.code_hash base.cell_dep_data_hash_to_elf)
        (map (trace_of crates tracer base collected program_of) (kept crates tracer base groups))
        g.vm_traces
accumulate_traces-to_guest_example =
    accumulate_traces-to_guest crates tracer base groups
      (map (trace_of crates tracer base collected program_of) (kept crates tracer base groups))
      (9 ∷ []) (accumulate_traces-kept crates tracer base collected program_of groups groups-Traced)
      (omega arith)
