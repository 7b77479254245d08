-- ===== src/Host/Errors.antt =====
-- src/types/error.rs: the errors, and the texts that they are displayed as.
use jolt_ncp.Base.{ℕ, [], ◌∷◌, ◌++◌}
use jolt_ncp.Host.Text.{Text, lit, msg}

pub data HostError : Type 0 where
  rpc_client_creation : Text → HostError
  transaction_fetch : Text → HostError
  mock_transaction_conversion : Text → HostError
  verifier_context_creation : Text → HostError
  verifier_resource : Text → HostError
  verifier_outpoint_error : Text → HostError
  program_elf_not_found : HostError
  script_error : Text → HostError
  transaction_proof_context_conversion : Text → HostError
  cell_resolution_error : Text → HostError
  verification_error : Text → HostError
  header_resolution_error : Text → HostError
  sp1_execution : Text → HostError
  guest_output_deserialization : HostError
  report_write : Text → HostError
  io : Text → HostError

-- The derived `Display`. The text of an `Io` is that of the inner error's `Debug`.
unfoldable pub display : HostError → Text
display (rpc_client_creation e) = lit "RPC client creation failed: " ∷ e
display (transaction_fetch e) = lit "Failed to fetch transaction: " ∷ e
display (mock_transaction_conversion e) = lit "Failed to convert transaction to mock: " ∷ e
display (verifier_context_creation e) = lit "Failed to create verifier context: " ∷ e
display (verifier_resource e) = lit "Failed to create verifier resource: " ∷ e
display (verifier_outpoint_error e) = lit "OutPoint error: " ∷ e
display program_elf_not_found = msg "Failed to get program ELF for script"
display (script_error e) = lit "Script error: " ∷ e
display (transaction_proof_context_conversion e) =
    lit "Failed to convert to TransactionProofContext: " ∷ e
display (cell_resolution_error e) = lit "Failed to resolve cells: " ∷ e
display (verification_error e) = lit "VerificationError: " ∷ e
display (header_resolution_error e) = lit "HeaderResolutionError: " ∷ e
display (sp1_execution e) = lit "SP1 execution failed: " ∷ e
display guest_output_deserialization = msg "Failed to deserialize guest output"
display (report_write e) = lit "Failed to write execution report: " ∷ e
display (io e) = lit "Io(" ∷ (e ++ lit ")" ∷ [])

-- How a call stops short of its result: it returns an error, or it leaves the process with a code,
-- behind a line on stderr, which `[]` says is not there.
pub data Stop : Type 0 where
  returned_error : HostError → Stop
  exit_process : ℕ → Text → Stop
