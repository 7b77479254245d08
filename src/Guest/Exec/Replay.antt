-- ===== src/Guest/Exec/Replay.antt =====
-- The guest's run on what the host packs, against the replay of one script.
use jolt_ncp.Base.{
  ℕ, ◌^◌, ◌≤◌, ◌≡◌, refl, List, [], ◌∷◌, length, some, Outcome, ok, ◌>>=◌, unwrap, Bytes,
}
use jolt_ncp.Chain.{ScriptVersion, v0, v1, v2}
use jolt_ncp.Host.Text.{Text}
use jolt_ncp.Guest.Types as Guest
use jolt_ncp.Guest.Exec.{
  MachineVersion, version0, version1, version2, Replayer, machine_version, ecall, execute,
  entrypoint, new,
}
use jolt_ncp.Host.Types.{ScriptGroupTraces}
use jolt_ncp.Host.Pack.{to_guest}
use jolt_ncp.Host.Pack.Faithful.{version_number, AllCarry, IsConsistent, to_guest-faithful}

-- The machine's version of a script's version.
abbrev pub version_of : ScriptVersion → MachineVersion
version_of v0 = version0
version_of v1 = version1
version_of v2 = version2

machine_version-u8 :
    {E : Type 0} (v : ScriptVersion)
    → machine_version {E = E} (version_number v) ≡ ok (version_of v)
unfolding machine_version
machine_version-u8 v0 = refl
machine_version-u8 v1 = refl
machine_version-u8 v2 = refl

module _ (replayer : Replayer) where
  open replayer use {new_with_bytes, args, build, load_program, run}

  -- The specification: a trace replayed in a program, on the machine of a version.
  unfoldable pub replay : ScriptVersion → Bytes → Bytes → Outcome Text (Unit {0})
  replay v trace_data elf = do
    impls ← unwrap (new_with_bytes trace_data)
    loaded ← unwrap (load_program (build (version_of v) (ecall replayer) impls) elf (args impls))
    exit_code ← unwrap (run loaded)
    ok tt

  execute-replay :
      (v : ScriptVersion) (trace_data elf : Bytes) (n : ℕ)
      → n ≡ version_number v
      → execute replayer (new trace_data elf n) ≡ replay v trace_data elf
  unfolding execute new replay
  execute-replay v trace_data elf n e = rw (e, machine_version-u8 {E = Text} v) refl

  pub entrypoint-first :
      (elfs : List Bytes) (t : ScriptGroupTraces) (ts : List ScriptGroupTraces) (raw : Bytes)
      (gs : List Guest.ScriptGroupTraces)
      → AllCarry elfs (λ u. some u.machine_program_elf) (t ∷ ts) gs
      → entrypoint replayer
          (record { raw_transaction_bytes = raw; vm_traces = gs; machine_program_elfs = elfs })
        ≡ replay t.script_version t.machine_trace_data t.machine_program_elf
  unfolding entrypoint
  entrypoint-first elfs t ts raw [] h = absurd h
  entrypoint-first elfs t ts raw (g ∷ gs) h =
      rw (h.0.elf, h.0.trace_bytes)
        (execute-replay t.script_version t.machine_trace_data t.machine_program_elf g.script_version
          h.0.version)

  -- For one to 65536 traces in which one code hash has one program, the guest's entry point, run
  -- on what the host packs, replays the first trace in that trace's own program, on the machine of
  -- that trace's version; an unsupported version does not occur.
  pub entrypoint-to_guest :
      (raw : Bytes) (t : ScriptGroupTraces) (ts : List ScriptGroupTraces)
      → length (t ∷ ts) ≤ 2 ^ 16
      → IsConsistent (t ∷ ts)
      → (do g ← to_guest (record { transaction = raw; vm_traces = t ∷ ts }); entrypoint replayer g)
        ≡ replay t.script_version t.machine_trace_data t.machine_program_elf
  entrypoint-to_guest raw t ts room same =
      let (g, packed, kept_tx, carried) =
        to_guest-faithful {E = Text} (record { transaction = raw; vm_traces = t ∷ ts }) room same in
      rw packed
        (entrypoint-first g.machine_program_elfs t ts g.raw_transaction_bytes g.vm_traces carried)
