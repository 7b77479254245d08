-- ===== src/Host/Executor/ReplayedExamples.antt =====
-- A stand-in for CKB-VM that refuses every program, and a prover on it.
use jolt_ncp.Base.{◌≡◌, Bool, Bool-cases, inl, inr, [], ◌∷◌, ok, err, panic, ltb, if◌then◌else◌}
use jolt_ncp.Guest.Types as Guest
use jolt_ncp.Host.Text.{lit}
use jolt_ncp.Guest.Exec.{Replayer, entrypoint}
use jolt_ncp.Guest.Exec.Examples.{replayer}
use jolt_ncp.Host.Executor.{Prover, total_input}
use jolt_ncp.Host.Executor.Replayed.{IsGuestProver, failed}

abbrev pub refusing : Replayer
refusing = record replayer { run = λ m. err (lit "OutOfCycles" ∷ []) }

-- A prover whose proof is the panic flag alone, and which panics on an input above its limit.
abbrev pub flag_prover : Prover
flag_prover = record {
  Program = Unit {0};
  Proof = Bool;
  prove = λ p g. if ltb 1200000 (total_input g) then panic else ok (failed (entrypoint refusing g));
}

pub flags_entrypoint :
    (g : Guest.TransactionProofContext) (proof : Bool)
    → flag_prover.prove tt g ≡ ok proof
    → proof ≡ failed (entrypoint refusing g)
flags_entrypoint g proof proved = elim (Bool-cases (ltb 1200000 (total_input g))) [
  | inl above ↦ cc
  | inr within ↦ cc
]

abbrev pub flag_IsGuestProver : IsGuestProver flag_prover tt refusing
flag_IsGuestProver = record { panicked = λ b. b; flags = flags_entrypoint }
