-- ===== src/Host/Executor/ProofLine.antt =====
-- The line on the proof among the lines that a run prints.
use mathlib.Core.List.{append-nil, append_assoc}
use jolt_ncp.Base.{
  ℕ, ◌≡◌, ◌⊎◌, refl, inl, inr, ap, Bool, true, false, List, [], ◌∷◌, ◌++◌, Option, some, none,
  Outcome, ok, err, panic, Bytes, if◌then◌else◌,
}
use jolt_ncp.Chain.{OutPoint, Transaction}
use jolt_ncp.Host.Types.{ScriptGroupTraces}
use jolt_ncp.Host.Text.{Text, msg}
use jolt_ncp.Host.Printed.{Printed, println, quiet, ◌>>=◌}
use jolt_ncp.Host.Json.{Json}
use jolt_ncp.Host.Crates.{Crates}
use jolt_ncp.Host.Executor.{Tracer, Prover, HostExecutor}
use jolt_ncp.Host.Executor.NoProof.{
  NoProof, NoProof-append, first_code, otherwise, size_report-NoProof,
  tx_to_mock_tx_printed-NoProof, accumulate_printed-NoProof,
}
use jolt_ncp.Host.Executor.Report.{proof_generated, execute_printed}
use jolt_ncp.Host.Executor.RunLog.{run_printed}

-- Whether the two lines on the proof are the last that are printed, or the first of them is not
-- printed: the former exactly for a result that `proved` accepts.
abbrev pub ProofLast : {E A : Type 0} → (A → Bool) → Printed E A → Type 0
ProofLast {A = A} proved p =
    ((a : A) × (earlier : List Text) × (proved a ≡ true)
      × (p ≡ (earlier ++ proof_generated ∷ msg "Output: ()" ∷ [], ok a))
      × NoProof earlier)
    ⊎ (NoProof p.0 × ((a : A) → p.1 ≡ ok a → proved a ≡ false))

ProofLast-bind :
    {E A B : Type 0} (proved : B → Bool) (p : Printed E A) (f : A → Printed E B)
    → NoProof p.0
    → ((a : A) → ProofLast proved (f a))
    → ProofLast proved (p >>= f)
unfolding ◌>>=◌
ProofLast-bind proved (out, ok a) f h k = elim (k a) [
  | inl (b, earlier, accepted, same, none_earlier) ↦ inl (
    b,
    out ++ earlier,
    accepted,
    rw (same, append_assoc out earlier (proof_generated ∷ msg "Output: ()" ∷ [])) refl,
    NoProof-append out earlier h none_earlier,
  )
  | inr (no_line, no_result) ↦ inr (NoProof-append out (f a).0 h no_line, no_result)
]
ProofLast-bind proved (out, err e) f h k = inr (h, λ b same. cc)
ProofLast-bind proved (out, panic) f h k = inr (h, λ b same. cc)

ProofLast-end :
    {E A : Type 0} (proved : A → Bool) (a : A)
    → proved a ≡ true
    → ProofLast {E = E} proved
        (do _ ← println (proof_generated ∷ msg "Output: ()" ∷ []); quiet (ok a))
unfolding ◌>>=◌
ProofLast-end proved a accepted = inl (a, [], accepted, refl, tt)

ProofLast-if :
    {E A : Type 0} (proved : A → Bool) (b : Bool) (p q : Printed E A)
    → ProofLast proved p
    → ProofLast proved q
    → ProofLast proved (if b then p else q)
ProofLast-if proved true p q hp hq = hp
ProofLast-if proved false p q hp hq = hq

execute_printed-ProofLast :
    (prover : Prover) (raw_tx : Bytes) (script_traces : List ScriptGroupTraces)
    (program : prover.Program)
    → ProofLast (λ _. true) (execute_printed prover raw_tx script_traces program)
unfolding execute_printed first_code
execute_printed-ProofLast prover raw_tx script_traces program =
    ProofLast-bind _ _ _ (otherwise _ refl, tt)
      (λ _. ProofLast-bind _ _ _ tt (λ g. ProofLast-bind _ _ _ (size_report-NoProof g) (λ _.
        ProofLast-bind _ _ _ (otherwise _ refl, tt)
          (λ _. ProofLast-bind _ _ _ tt (λ proof. ProofLast-end (λ _. true) _ refl)))))

abbrev pub is_proved : {A : Type 0} → Option A → Bool
is_proved o = elim o [ some _ ↦ true | none ↦ false ]

ProofLast-some :
    {E A : Type 0} (p : Printed E A)
    → ProofLast (λ _. true) p
    → ProofLast is_proved (do a ← p; quiet (ok (some a)))
unfolding ◌>>=◌
ProofLast-some (out, ok a) (inl (b, earlier, accepted, same, none_earlier)) =
    inl (some a, earlier, refl, rw (append-nil out, ap (λ p. p.0) same) refl, none_earlier)
ProofLast-some (out, ok a) (inr (no_line, no_result)) =
    let impossible : true ≡ false = no_result a refl in absurd cc
ProofLast-some (out, err e) (inl (b, earlier, accepted, same, none_earlier)) =
    let impossible : err e ≡ ok b = ap (λ p. p.1) same in absurd cc
ProofLast-some (out, err e) (inr (no_line, no_result)) = inr (no_line, λ b same. cc)
ProofLast-some (out, panic) (inl (b, earlier, accepted, same, none_earlier)) =
    let impossible : panic ≡ ok b = ap (λ p. p.1) same in absurd cc
ProofLast-some (out, panic) (inr (no_line, no_result)) = inr (no_line, λ b same. cc)

module _ (json : Json) (crates : Crates json.HeaderView) (tracer : Tracer crates) (prover : Prover)
    (out_points_of : Bytes → Outcome Text (List OutPoint)) (is_cellbase : Transaction → Bool)
    (raw_bytes : Transaction → Bytes) where
  -- Whatever the node, the other crates and the prover do, either the run returns a proof, and
  -- `Proof generated!` and the guest's output are the last two lines that it prints, with no
  -- `Proof generated!` before them; or it does not print `Proof generated!`, and it panics, fails,
  -- exits or returns without a proof.
  pub run_printed-ProofLast :
      (host : HostExecutor json.Value) (tx_hash : List ℕ) (program : prover.Program)
      → ProofLast is_proved (
          run_printed json crates tracer prover out_points_of is_cellbase raw_bytes host tx_hash
            program)
  unfolding run_printed first_code
  run_printed-ProofLast host tx_hash program = ProofLast-bind _ _ _ tt (λ tx.
      ProofLast-if _ _ _ _
        (ProofLast-bind _ _ _ (otherwise _ refl, (otherwise _ refl, tt))
          (λ _. inr (tt, λ a same. cc)))
        (ProofLast-bind _ _ _ (tx_to_mock_tx_printed-NoProof json out_points_of is_cellbase _ tx)
          (λ mock. ProofLast-bind _ _ _ tt (λ verified.
            ProofLast-bind _ _ _ (accumulate_printed-NoProof crates tracer verified.0 verified.1)
              (λ traces.
                ProofLast-some _
                  (execute_printed-ProofLast prover (raw_bytes tx) traces program))))))
