-- ===== src/Guest/Exec/Exit.antt =====
-- The exit code of the replayed script.
use jolt_ncp.Base.{ℕ, ◌^◌, ◌≤◌, ◌≡◌, refl, ◌∙◌, List, ◌∷◌, length, ok, ◌>>=◌, Bytes}
use jolt_ncp.Guest.Exec.{Replayer, ecall, entrypoint}
use jolt_ncp.Guest.Exec.Replay.{version_of, replay, entrypoint-to_guest}
use jolt_ncp.Host.Types.{ScriptGroupTraces}
use jolt_ncp.Host.Pack.{to_guest}
use jolt_ncp.Host.Pack.Faithful.{IsConsistent}

module _ (replayer : Replayer) where
  open replayer use {RunnerImpls, Machine, new_with_bytes, args, build, load_program, run}

  -- A trace that is read, a program that loads, and a run that ends with an exit code.
  pub record Ends (t : ScriptGroupTraces) (exit_code : ℕ) : Type 0 where
    pub impls : RunnerImpls
    pub loaded : Machine
    pub parsed : new_with_bytes t.machine_trace_data ≡ ok impls
    pub loads :
        load_program
          (build (version_of t.script_version) (ecall replayer) impls)
          t.machine_program_elf
          (args impls)
        ≡ ok loaded
    pub finishes : run loaded ≡ ok exit_code

  -- For one to 65536 traces in which one code hash has one program, where the first trace is read,
  -- its program loads and the run ends with an exit code, the guest's entry point, run on what the
  -- host packs, returns, whatever the exit code.
  pub entrypoint-any_exit :
      (raw : Bytes) (t : ScriptGroupTraces) (ts : List ScriptGroupTraces) (exit_code : ℕ)
      → length (t ∷ ts) ≤ 2 ^ 16
      → IsConsistent (t ∷ ts)
      → Ends t exit_code
      → (do g ← to_guest (record { transaction = raw; vm_traces = t ∷ ts }); entrypoint replayer g)
        ≡ ok tt
  unfolding replay
  entrypoint-any_exit raw t ts exit_code room same ends =
      entrypoint-to_guest replayer raw t ts room same
      ∙ rw (ends.parsed, ends.loads, ends.finishes) refl
