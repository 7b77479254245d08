-- ===== src/Host/Executor/Logged.antt =====
-- What the loop over the script groups prints, against its result.
use mathlib.Core.List.{append-nil}
use jolt_ncp.Base.{
  ℕ, suc, String, Bool, false, ◌&&◌, ◌||◌, ◌==◌, length, ltb, arith, ◌≡◌, refl, ap, sym, inl, inr,
  List, [], ◌∷◌, ◌++◌, map, zip, flat_map, Bool-cases, Outcome, ok, err, panic, Outcome-cases, All,
  Bytes, if◌then◌else◌,
}
use jolt_ncp.Chain.{ScriptVersion, v0, v1, v2, ScriptGroupType, lock, type_script}
use jolt_ncp.Host.Text.{Text, lit, dec, hash_hex, signed}
use jolt_ncp.Host.Printed.{◌>>=◌}
use jolt_ncp.Host.Crates.{Crates}
use jolt_ncp.Host.Verifier.{VerifierGroupContext, VerifierGroupMetadata, get_program_elf}
use jolt_ncp.Host.Executor.{
  CollectorKey, CollectorResult, Tracer, root_trace, is_type_id_group, script_trace,
  accumulate_traces,
}
use jolt_ncp.Host.Executor.Traces.{kept, trace_of, Traced}
use jolt_ncp.Host.Executor.Log.{
  is_some, skip_line, key_line, vm_lines, summary_line, summary_lines, collect_printed,
  accumulate_printed,
}

abbrev first_of : {E A B : Type 0} → Outcome E (A × B) → Outcome E A
first_of (ok x) = ok x.0
first_of (err e) = err e
first_of panic = panic

zip-map_both :
    {A B C : Type 0} (f : A → B) (g : A → C) (xs : List A)
    → zip (map f xs) (map g xs) ≡ map (λ x. (f x, g x)) xs
zip-map_both f g [] = refl
zip-map_both f g (x ∷ xs) = ap (◌∷◌ (f x, g x)) (zip-map_both f g xs)

-- How the two enumerations are printed.
abbrev pub version_name : ScriptVersion → String
version_name v = elim v [ v0 ↦ "V0" | v1 ↦ "V1" | v2 ↦ "V2" ]

abbrev pub type_name : ScriptGroupType → String
type_name t = elim t [ lock ↦ "Lock" | type_script ↦ "Type" ]

-- The lines of a group in the first loop: one for a group of the built-in script, and otherwise
-- the number of its machines, followed by their keys where there are several.
abbrev pub skipped_lines : VerifierGroupMetadata → List Text
skipped_lines m =
    (lit "Skipping Type ID script "
      ∷ lit (type_name m.0)
      ∷ lit " hash="
      ∷ hash_hex m.1
      ∷ lit " (built-in, no binary)"
      ∷ [])
    ∷ []

module _ {L S : Type 0} where
  -- Whether the machine with id 0 and generation 0 is among those traced.
  abbrev pub has_root : List (CollectorKey × L × S) → Bool
  has_root [] = false
  has_root (t ∷ ts) = (t.0.vm_id == 0 && t.0.generation_id == 0) || has_root ts

  root_trace-has_root : (ts : List (CollectorKey × L × S)) → is_some (root_trace ts) ≡ has_root ts
  unfolding root_trace
  root_trace-has_root [] = refl
  root_trace-has_root ((key, l, s) ∷ ts) = ground (arith, root_trace-has_root ts)

  abbrev pub machine_lines : VerifierGroupMetadata → List (CollectorKey × L × S) → List Text
  machine_lines m traces =
      (lit "Script "
        ∷ lit (type_name m.0)
        ∷ lit " hash="
        ∷ hash_hex m.1
        ∷ lit " - Total VM instances: "
        ∷ dec (length traces)
        ∷ [])
      ∷ (if ltb 1 (length traces)
          then (lit "  -> Child VMs detected (spawn was called)" ∷ [])
            ∷ map
                (λ t.
                  lit "    VM id="
                  ∷ dec t.0.vm_id
                  ∷ lit ", generation="
                  ∷ dec t.0.generation_id
                  ∷ [])
                traces
          else [])

  -- The line on a group in the last loop.
  abbrev pub summary_of : ℕ → VerifierGroupMetadata → CollectorResult L S → Text
  summary_of i m result =
      lit "script "
      ∷ dec i
      ∷ lit ": version="
      ∷ lit (version_name m.3)
      ∷ lit " type="
      ∷ lit (type_name m.0)
      ∷ lit " hash="
      ∷ hash_hex m.1
      ∷ lit " exit_code="
      ∷ signed result.exit_code
      ∷ lit " ckb_cycles="
      ∷ dec result.cycles
      ∷ lit " root_trace_present="
      ∷ lit (if has_root result.traces then "true" else "false")
      ∷ lit " total_vms="
      ∷ dec (length result.traces)
      ∷ []

  abbrev pub summaries :
      (VerifierGroupMetadata → CollectorResult L S) → ℕ → List VerifierGroupMetadata → List Text
  summaries collected i [] = []
  summaries collected i (m ∷ ms) = summary_of i m (collected m) ∷ summaries collected (suc i) ms

module _ {H : Type 0} (crates : Crates H) (tracer : Tracer crates)
    (base : VerifierGroupContext crates) where
  open tracer use {Locator, Syscalls}

  collect_printed-traces :
      (groups : List VerifierGroupMetadata)
      → first_of (collect_printed crates tracer base groups).1
        ≡ accumulate_traces crates tracer base groups
  unfolding ◌>>=◌ collect_printed accumulate_traces script_trace
  collect_printed-traces [] = refl
  collect_printed-traces ((t, h, g, v) ∷ groups) =
      let ih = collect_printed-traces groups in
      elim (Bool-cases (is_type_id_group crates tracer g)) [
        | inl skipped ↦ rw skipped ih
        | inr traced ↦ elim (Outcome-cases (tracer.collect base g)) [
          | inl (result, collected) ↦ elim (Outcome-cases (get_program_elf crates base g.script)) [
            | inl (elf, there) ↦
                elim (Outcome-cases (collect_printed crates tracer base groups).1) [
                  | inl (x, rest) ↦ rw (traced, collected, there, rest, sym (rw rest at ih)) refl
                  | inr (inl (e, failed)) ↦
                      rw (traced, collected, there, failed, sym (rw failed at ih)) refl
                  | inr (inr stuck) ↦
                      rw (traced, collected, there, stuck, sym (rw stuck at ih)) refl
                ]
            | inr (inl (e, missing)) ↦ rw (traced, collected, missing) refl
            | inr (inr stuck) ↦ rw (traced, collected, stuck) refl
          ]
          | inr (inl (e, failed)) ↦ rw (traced, failed) refl
          | inr (inr stuck) ↦ rw (traced, stuck) refl
        ]
      ]

  -- Printing changes nothing: the result is that of the loop, errors and panics included.
  pub accumulate_printed-accumulate_traces :
      (groups : List VerifierGroupMetadata)
      → (accumulate_printed crates tracer base groups).1
        ≡ accumulate_traces crates tracer base groups
  unfolding ◌>>=◌ accumulate_printed
  accumulate_printed-accumulate_traces groups =
      let ih = collect_printed-traces groups in
      elim (Outcome-cases (collect_printed crates tracer base groups).1) [
        | inl (x, fine) ↦ rw (fine, sym (rw fine at ih)) refl
        | inr (inl (e, failed)) ↦ rw (failed, sym (rw failed at ih)) refl
        | inr (inr stuck) ↦ rw (stuck, sym (rw stuck at ih)) refl
      ]

  module _ (collected : VerifierGroupMetadata → CollectorResult Locator Syscalls)
      (elf : VerifierGroupMetadata → Bytes) where
    -- The lines of one group in the first loop.
    unfoldable pub group_lines : VerifierGroupMetadata → List Text
    group_lines m =
        let (_, _, group, _) = m in
        if is_type_id_group crates tracer group
        then skipped_lines m
        else machine_lines m (collected m).traces

    collect_printed-kept :
        (groups : List VerifierGroupMetadata)
        → All (Traced crates tracer base collected elf) (kept crates tracer base groups)
        → collect_printed crates tracer base groups ≡ (
          flat_map group_lines groups,
          ok (
            map (trace_of crates tracer base collected elf) (kept crates tracer base groups),
            map collected (kept crates tracer base groups),
          ),
        )
    unfolding ◌>>=◌ collect_printed kept group_lines skip_line vm_lines key_line
    collect_printed-kept [] all = refl
    collect_printed-kept ((t, h, g, v) ∷ groups) all =
        elim (Bool-cases (is_type_id_group crates tracer g)) [
          | inl skipped ↦ rw (skipped, collect_printed-kept groups (rw skipped at all)) refl
          | inr traced ↦
              let here = rw traced at all in
              rw
                (
                  traced,
                  here.0.0,
                  here.0.1,
                  collect_printed-kept groups here.1,
                  append-nil (flat_map group_lines groups),
                )
                refl
        ]

    summary_lines-summaries :
        (i : ℕ) (ms : List VerifierGroupMetadata)
        → summary_lines i (map (λ m. (trace_of crates tracer base collected elf m, collected m)) ms)
          ≡ summaries collected i ms
    unfolding summary_lines summary_line
    summary_lines-summaries i [] = refl
    summary_lines-summaries i (m ∷ ms) =
        rw (root_trace-has_root (collected m).traces, summary_lines-summaries (suc i) ms) refl

    -- When the tracer succeeds on every group but those of the built-in Type ID script, and the
    -- programs of these are in the table, the loop over the script groups gives the traces of the
    -- other groups and prints, group by group, one line with the kind and the hash for a skipped
    -- group, and for any other the number of its machines and, where there are several, their
    -- keys; then one line for each group that was traced, numbered from 0, with its version, kind
    -- and hash, and with the exit code, the cycles, whether a root was traced and the number of
    -- machines that the tracer gave for that very group.
    pub accumulate_printed-kept :
        (groups : List VerifierGroupMetadata)
        → All (Traced crates tracer base collected elf) (kept crates tracer base groups)
        → accumulate_printed crates tracer base groups ≡ (
          flat_map group_lines groups ++ summaries collected 0 (kept crates tracer base groups),
          ok (map (trace_of crates tracer base collected elf) (kept crates tracer base groups)),
        )
    unfolding ◌>>=◌ accumulate_printed
    accumulate_printed-kept groups all =
        rw
          (
            collect_printed-kept groups all,
            zip-map_both (trace_of crates tracer base collected elf) collected
                (kept crates tracer base groups),
            summary_lines-summaries 0 (kept crates tracer base groups),
            append-nil (summaries collected 0 (kept crates tracer base groups)),
          )
          refl
