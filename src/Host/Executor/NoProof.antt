-- ===== src/Host/Executor/NoProof.antt =====
-- The lines that a run prints before its proof, of which none speaks of the proof.
use Prim.Native.Char.{code}
use jolt_ncp.Base.{
  length, String, arith, ◌==◌, ℕ, ◌≡◌, ◌≢◌, refl, inl, inr, ap, Bool, true, false, Bool-cases, List,
  [], ◌∷◌, ◌++◌, map, Outcome, ok, err, panic, All, Bytes, if◌then◌else◌, ltb,
}
use jolt_ncp.Chain.{OutPoint, Transaction}
use jolt_ncp.Guest.Types as Guest
use jolt_ncp.Host.Types.{ScriptGroupTraces}
use jolt_ncp.Host.Text.{Text, Piece, lit, msg}
use jolt_ncp.Host.Printed.{Printed, ◌>>=◌}
use jolt_ncp.Host.Json.{Json}
use jolt_ncp.Host.Batch.{RpcClient}
use jolt_ncp.Host.Convert.Log.{count_lines, tx_to_mock_tx_printed}
use jolt_ncp.Host.Crates.{Crates}
use jolt_ncp.Host.Verifier.{VerifierGroupContext, VerifierGroupMetadata}
use jolt_ncp.Host.Executor.{CollectorKey, CollectorResult, Tracer, is_type_id_group}
use jolt_ncp.Host.Executor.Log.{
  skip_line, key_line, vm_lines, summary_line, summary_lines, collect_printed, accumulate_printed,
}
use jolt_ncp.Host.Executor.Report.{proof_generated, trace_size_lines, elf_size_lines, size_report}

-- Lines of which none says that a proof was generated.
abbrev pub NoProof : List Text → Type 0
NoProof lines = All (λ line. line ≢ proof_generated) lines

-- The first character of a line that starts with a literal, or 0.
unfoldable pub first_code : Text → ℕ
first_code [] = 0
first_code (lit String.[] ∷ rest) = 0
first_code (lit (String.◌∷◌ letter more) ∷ rest) = code letter
first_code (_ ∷ rest) = 0

pub otherwise : (line : Text) → first_code line == b'P' ≡ false → line ≢ proof_generated
unfolding first_code
otherwise line other same =
    let first : first_code line ≡ b'P' = ap first_code same in ground (arith, first, other)

pub NoProof-append : (xs ys : List Text) → NoProof xs → NoProof ys → NoProof (xs ++ ys)
NoProof-append [] ys hx hy = hy
NoProof-append (x ∷ xs) ys hx hy = (hx.0, NoProof-append xs ys hx.1 hy)

pub NoProof-bind :
    {E A B : Type 0} (p : Printed E A) (f : A → Printed E B)
    → NoProof p.0
    → ((a : A) → NoProof (f a).0)
    → NoProof (p >>= f).0
unfolding ◌>>=◌
NoProof-bind (out, ok a) f h k = NoProof-append out (f a).0 h (k a)
NoProof-bind (out, err e) f h k = h
NoProof-bind (out, panic) f h k = h

NoProof-if :
    (b : Bool) (xs ys : List Text) → NoProof xs → NoProof ys → NoProof (if b then xs else ys)
NoProof-if true xs ys hx hy = hx
NoProof-if false xs ys hx hy = hy

-- The lines of the report.
trace_size_lines-NoProof :
    (i : ℕ) (traces : List Guest.ScriptGroupTraces) → NoProof (trace_size_lines i traces)
unfolding trace_size_lines first_code
trace_size_lines-NoProof i [] = tt
trace_size_lines-NoProof i (t ∷ ts) = (otherwise _ refl, trace_size_lines-NoProof _ ts)

elf_size_lines-NoProof : (i : ℕ) (elfs : List Bytes) → NoProof (elf_size_lines i elfs)
unfolding elf_size_lines first_code
elf_size_lines-NoProof i [] = tt
elf_size_lines-NoProof i (elf ∷ elfs) = (otherwise _ refl, elf_size_lines-NoProof _ elfs)

pub size_report-NoProof : (g : Guest.TransactionProofContext) → NoProof (size_report g)
unfolding size_report first_code
size_report-NoProof g = (
  otherwise _ refl,
  (
    otherwise _ refl,
    (
      otherwise _ refl,
      (
        otherwise _ refl,
        NoProof-append _ _ (trace_size_lines-NoProof 0 g.vm_traces) (
          otherwise _ refl,
          NoProof-append _ _ (elf_size_lines-NoProof 0 g.machine_program_elfs) (
            otherwise _ refl,
            (
              otherwise _ refl,
              NoProof-append _ (msg "===========================" ∷ [] ∷ [])
                  (NoProof-if _ (msg "  ⚠ INPUT EXCEEDS max_input_size! Jolt will panic." ∷ []) []
                    (otherwise _ refl, tt) tt)
                  (otherwise _ refl, (otherwise _ refl, tt)),
            ),
          ),
        ),
      ),
    ),
  ),
)

-- The lines of the conversion and of the loop over the script groups.
count_lines-NoProof : {A : Type 0} (p : Piece) (xs : List A) → NoProof (count_lines (p ∷ []) xs)
unfolding count_lines
count_lines-NoProof p [] = tt
count_lines-NoProof p (x ∷ xs) = ((λ e. cc), tt)

pub tx_to_mock_tx_printed-NoProof :
    (json : Json) (out_points_of : Bytes → Outcome Text (List OutPoint))
    (is_cellbase : Transaction → Bool) (c : RpcClient json.Value) (tx : Transaction)
    → NoProof (tx_to_mock_tx_printed json out_points_of is_cellbase c tx).0
unfolding tx_to_mock_tx_printed first_code
tx_to_mock_tx_printed-NoProof json out_points_of is_cellbase c tx =
    NoProof-bind _ _
      (NoProof-if (is_cellbase tx)
        (msg "Transaction is a cellbase (miner reward) - skipping input resolution" ∷ []) []
        (otherwise _ refl, tt) tt)
      (λ _.
        NoProof-bind _ _ (otherwise _ refl, tt)
          (λ _. NoProof-bind _ _ tt (λ cells. NoProof-bind _ _ tt (λ ins.
            NoProof-bind _ _ tt (λ mains. NoProof-bind _ _ tt (λ subs.
              NoProof-bind _ _ (count_lines-NoProof _ _) (λ _. NoProof-bind _ _ tt (λ deps.
                NoProof-bind _ _ (count_lines-NoProof _ _)
                  (λ _. NoProof-bind _ _ tt (λ headers. tt))))))))))

key_lines-NoProof :
    {L S : Type 0} (ts : List (CollectorKey × L × S)) → NoProof (map (λ t. key_line t.0) ts)
unfolding key_line first_code
key_lines-NoProof [] = tt
key_lines-NoProof (t ∷ ts) = (otherwise _ refl, key_lines-NoProof ts)

vm_lines-NoProof :
    {L S : Type 0} (m : VerifierGroupMetadata) (result : CollectorResult L S)
    → NoProof (vm_lines m result)
unfolding vm_lines first_code
vm_lines-NoProof (t, h, g, v) result = (
  otherwise _ refl,
  NoProof-if (ltb 1 (length result.traces))
      ((lit "  -> Child VMs detected (spawn was called)" ∷ [])
        ∷ map (λ t. key_line t.0) result.traces)
      [] (otherwise _ refl, key_lines-NoProof result.traces) tt,
)

summary_lines-NoProof :
    {L S : Type 0} (i : ℕ) (xs : List (ScriptGroupTraces × CollectorResult L S))
    → NoProof (summary_lines i xs)
unfolding summary_lines summary_line first_code
summary_lines-NoProof i [] = tt
summary_lines-NoProof i ((st, result) ∷ xs) = (otherwise _ refl, summary_lines-NoProof _ xs)

skip_line-NoProof : (m : VerifierGroupMetadata) → NoProof (skip_line m ∷ [])
unfolding skip_line first_code
skip_line-NoProof (t, h, g, v) = (otherwise _ refl, tt)

module _ {H : Type 0} (crates : Crates H) (tracer : Tracer crates)
    (base : VerifierGroupContext crates) where
  collect_printed-NoProof :
      (groups : List VerifierGroupMetadata) → NoProof (collect_printed crates tracer base groups).0
  unfolding collect_printed
  collect_printed-NoProof [] = tt
  collect_printed-NoProof ((t, h, g, v) ∷ groups) =
      let ih = collect_printed-NoProof groups in
      elim (Bool-cases (is_type_id_group crates tracer g)) [
        | inl skipped ↦ rw skipped (NoProof-bind _ _ (skip_line-NoProof (t, h, g, v)) (λ _. ih))
        | inr traced ↦ rw traced (
            NoProof-bind _ _ tt (λ result.
              NoProof-bind _ _ (vm_lines-NoProof (t, h, g, v) result)
                (λ _. NoProof-bind _ _ tt (λ elf. NoProof-bind _ _ ih (λ rest. tt)))))
      ]

  pub accumulate_printed-NoProof :
      (groups : List VerifierGroupMetadata)
      → NoProof (accumulate_printed crates tracer base groups).0
  unfolding accumulate_printed
  accumulate_printed-NoProof groups =
      NoProof-bind _ _ (collect_printed-NoProof groups)
        (λ x. NoProof-bind _ _ (summary_lines-NoProof 0 _) (λ _. tt))
