-- ===== src/Guest/Exec/Examples.antt =====
-- The replay of one of two scripts, on a stand-in for CKB-VM.
use jolt_ncp.Base.{◌+◌, ◌≡◌, refl, [], ◌∷◌, length, none, ok, ◌>>=◌, arith, Bytes}
use jolt_ncp.Chain.{v1, v2, lock}
use jolt_ncp.Guest.Exec.{Replayer, MachineVersion, version1, entrypoint}
use jolt_ncp.Guest.Exec.Exit.{Ends, entrypoint-any_exit}
use jolt_ncp.Guest.Exec.Replay.{replay, entrypoint-to_guest}
use jolt_ncp.Host.Types.{ScriptGroupTraces}
use jolt_ncp.Host.Pack.{to_guest}

-- The exit code is the length of the trace and of the program together.
abbrev pub replayer : Replayer
replayer = record {
  RunnerImpls = Bytes;
  Machine = MachineVersion × Bytes × Bytes;
  syscall_code = λ n. none;
  new_with_bytes = λ bs. ok bs;
  args = λ bs. [];
  build = λ v override impls. (v, impls, []);
  load_program = λ m elf args. ok (m.0, m.1, elf);
  run = λ m. ok (length m.1 + length m.2);
}

abbrev first_trace : ScriptGroupTraces
first_trace = record {
  script_version = v1;
  script_group_type = lock;
  script_hash = 501;
  code_hash = 77;
  machine_trace_data = 1 ∷ 2 ∷ [];
  machine_program_elf = 127 ∷ 69 ∷ [];
}

abbrev second_trace : ScriptGroupTraces
second_trace = record first_trace { script_hash = 502; script_version = v2 }

entrypoint-to_guest_example :
    (do
      g ← to_guest (record { transaction = 9 ∷ []; vm_traces = first_trace ∷ second_trace ∷ [] })
      entrypoint replayer g)
    ≡ replay replayer v1 (1 ∷ 2 ∷ []) (127 ∷ 69 ∷ [])
entrypoint-to_guest_example =
    entrypoint-to_guest replayer (9 ∷ []) first_trace (second_trace ∷ []) (omega arith)
      (((λ e. refl), ((λ e. refl), tt)), (((λ e. refl), ((λ e. refl), tt)), tt))

-- The script leaves with 4, which CKB takes for a failure.
first_trace-Ends : Ends replayer first_trace 4
first_trace-Ends = record {
  impls = 1 ∷ 2 ∷ [];
  loaded = (version1, 1 ∷ 2 ∷ [], 127 ∷ 69 ∷ []);
  parsed = refl;
  loads = refl;
  finishes = refl;
}

entrypoint-any_exit_example :
    (do
      g ← to_guest (record { transaction = 9 ∷ []; vm_traces = first_trace ∷ second_trace ∷ [] })
      entrypoint replayer g)
    ≡ ok tt
entrypoint-any_exit_example =
    entrypoint-any_exit replayer (9 ∷ []) first_trace (second_trace ∷ []) 4 (omega arith)
      (((λ e. refl), ((λ e. refl), tt)), (((λ e. refl), ((λ e. refl), tt)), tt)) first_trace-Ends
