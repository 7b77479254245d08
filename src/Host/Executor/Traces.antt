-- ===== src/Host/Executor/Traces.antt =====
-- What the loop over the script groups collects, and its packing for the guest.
use jolt_ncp.Base.{
  ℕ, suc, ◌^◌, ◌≤◌, ◌≡◌, refl, ap, sym, ◌∙◌, inl, inr, List, [], ◌∷◌, map, length, some, Bool-cases,
  arith, All, All-map, Outcome, ok, err, panic, ◌>>=◌, OnOk, Bytes, lookup, if◌then◌else◌,
}
use jolt_ncp.Guest.Types as Guest
use jolt_ncp.Host.Types.{ScriptGroupTraces}
use jolt_ncp.Host.Pack.{to_guest}
use jolt_ncp.Host.Pack.Faithful.{AllCarry, IsConsistent, to_guest-faithful}
use jolt_ncp.Host.Errors.{Stop}
use jolt_ncp.Host.Crates.{Crates}
use jolt_ncp.Host.Verifier.{VerifierGroupContext, VerifierGroupMetadata, get_program_elf}
use jolt_ncp.Host.Executor.{
  CollectorResult, Tracer, is_type_id_group, trace_data, script_trace, accumulate_traces,
}

module _ {H : Type 0} (crates : Crates H) (tracer : Tracer crates)
    (base : VerifierGroupContext crates) where
  open tracer use {Locator, Syscalls}

  -- The groups that are traced: all but those of the built-in script.
  unfoldable pub kept : List VerifierGroupMetadata → List VerifierGroupMetadata
  kept [] = []
  kept (m ∷ ms) =
      let rest = kept ms in
      let (_, _, group, _) = m in if is_type_id_group crates tracer group then rest else m ∷ rest

  -- The trace of a group, from its collection and its program.
  abbrev pub trace_of :
      (VerifierGroupMetadata → CollectorResult Locator Syscalls)
      → (VerifierGroupMetadata → Bytes)
      → VerifierGroupMetadata
      → ScriptGroupTraces
  trace_of collected elf m = record {
    script_version = m.3;
    script_group_type = m.0;
    script_hash = m.1;
    code_hash = m.2.script.code_hash;
    machine_trace_data = trace_data crates tracer (collected m);
    machine_program_elf = elf m;
  }

  -- The tracer succeeds on a group, and the group's program is in the table.
  abbrev pub Traced :
      (VerifierGroupMetadata → CollectorResult Locator Syscalls)
      → (VerifierGroupMetadata → Bytes)
      → VerifierGroupMetadata
      → Type 0
  Traced collected elf m =
      (tracer.collect base m.2 ≡ ok (collected m))
      × (get_program_elf crates base m.2.script ≡ ok (elf m))

  -- When the tracer succeeds on every group but those of the built-in Type ID script, and the
  -- programs of these are in the table, the loop gives their traces in the order of the groups,
  -- and none for the built-in script.
  pub accumulate_traces-kept :
      (collected : VerifierGroupMetadata → CollectorResult Locator Syscalls)
      (elf : VerifierGroupMetadata → Bytes) (groups : List VerifierGroupMetadata)
      → All (Traced collected elf) (kept groups)
      → accumulate_traces crates tracer base groups
        ≡ ok (map (trace_of collected elf) (kept groups))
  unfolding accumulate_traces kept script_trace
  accumulate_traces-kept collected elf [] all = refl
  accumulate_traces-kept collected elf ((t, h, g, v) ∷ groups) all =
      elim (Bool-cases (is_type_id_group crates tracer g)) [
        | inl skipped ↦ rw skipped (accumulate_traces-kept collected elf groups (rw skipped at all))
        | inr traced ↦
            let here = rw traced at all in
            rw (traced, here.0.0, here.0.1, accumulate_traces-kept collected elf groups here.1) refl
      ]

  -- A trace carries the program that the table has under its code hash.
  FromTable : ScriptGroupTraces → Type 0
  FromTable t = lookup t.code_hash base.cell_dep_data_hash_to_elf ≡ some t.machine_program_elf

  script_trace-FromTable :
      (m : VerifierGroupMetadata) (t : ScriptGroupTraces)
      → script_trace crates tracer base m ≡ ok t
      → FromTable t
  unfolding script_trace FromTable get_program_elf
  script_trace-FromTable (k, h, g, v) t run = ground (arith, run)

  FromTable-cons :
      (o : Outcome Stop ScriptGroupTraces) (r : Outcome Stop (List ScriptGroupTraces))
      → ((t : ScriptGroupTraces) → o ≡ ok t → FromTable t)
      → OnOk (All FromTable) r
      → OnOk (All FromTable) (do t ← o; ts ← r; ok (t ∷ ts))
  FromTable-cons (ok t) (ok ts) f h = (f t refl, h)
  FromTable-cons (ok t) (err e) f h = tt
  FromTable-cons (ok t) panic f h = tt
  FromTable-cons (err e) r f h = tt
  FromTable-cons panic r f h = tt

  accumulate_traces-FromTable :
      (groups : List VerifierGroupMetadata)
      → OnOk (All FromTable) (accumulate_traces crates tracer base groups)
  unfolding accumulate_traces
  accumulate_traces-FromTable [] = tt
  accumulate_traces-FromTable ((k, h, g, v) ∷ groups) =
      let rest = accumulate_traces-FromTable groups in
      elim (Bool-cases (is_type_id_group crates tracer g)) [
        | inl skipped ↦ rw skipped rest
        | inr traced ↦ rw traced (
            FromTable-cons (script_trace crates tracer base (k, h, g, v))
              (accumulate_traces crates tracer base groups) (script_trace-FromTable (k, h, g, v))
              rest)
      ]

  same_program :
      (t u : ScriptGroupTraces)
      → FromTable t
      → FromTable u
      → u.code_hash ≡ t.code_hash
      → u.machine_program_elf ≡ t.machine_program_elf
  unfolding FromTable
  same_program t u ht hu e =
      let table : lookup u.code_hash base.cell_dep_data_hash_to_elf
          ≡ lookup t.code_hash base.cell_dep_data_hash_to_elf =
        ap (λ k. lookup k base.cell_dep_data_hash_to_elf) e in
      cc

  FromTable-IsConsistent : (ts : List ScriptGroupTraces) → All FromTable ts → IsConsistent ts
  FromTable-IsConsistent ts all =
      All-map ts (λ t ht. All-map ts (λ u hu. same_program t u ht hu) all) all

  -- Traces that were collected from one table are consistent.
  pub accumulate_traces-IsConsistent :
      (groups : List VerifierGroupMetadata) (ts : List ScriptGroupTraces)
      → accumulate_traces crates tracer base groups ≡ ok ts
      → IsConsistent ts
  accumulate_traces-IsConsistent groups ts run =
      FromTable-IsConsistent ts (rw run at (accumulate_traces-FromTable groups))

  length-cons_outcome :
      (n : ℕ) (o : Outcome Stop ScriptGroupTraces) (r : Outcome Stop (List ScriptGroupTraces))
      → OnOk (λ ts. length ts ≤ n) r
      → OnOk (λ ts. length ts ≤ suc n) (do t ← o; ts ← r; ok (t ∷ ts))
  length-cons_outcome n (ok t) (ok ts) h = omega (arith, h)
  length-cons_outcome n (ok t) (err e) h = tt
  length-cons_outcome n (ok t) panic h = tt
  length-cons_outcome n (err e) r h = tt
  length-cons_outcome n panic r h = tt

  weaken :
      (n : ℕ) (r : Outcome Stop (List ScriptGroupTraces))
      → OnOk (λ ts. length ts ≤ n) r
      → OnOk (λ ts. length ts ≤ suc n) r
  weaken n (ok ts) h = omega (arith, h)
  weaken n (err e) h = tt
  weaken n panic h = tt

  pub length-accumulate_traces :
      (groups : List VerifierGroupMetadata)
      → OnOk (λ ts. length ts ≤ length groups) (accumulate_traces crates tracer base groups)
  unfolding accumulate_traces
  length-accumulate_traces [] = omega arith
  length-accumulate_traces ((k, h, g, v) ∷ groups) =
      let rest = length-accumulate_traces groups in
      elim (Bool-cases (is_type_id_group crates tracer g)) [
        | inl skipped ↦
            rw skipped (weaken (length groups) (accumulate_traces crates tracer base groups) rest)
        | inr traced ↦ rw traced (
            length-cons_outcome (length groups) (script_trace crates tracer base (k, h, g, v))
              (accumulate_traces crates tracer base groups) rest)
      ]

  -- Each trace finds what the table has under its code hash.
  AllCarry-table :
      (elfs : List Bytes) (ts : List ScriptGroupTraces) (gs : List Guest.ScriptGroupTraces)
      → All FromTable ts
      → AllCarry elfs (λ t. some t.machine_program_elf) ts gs
      → AllCarry elfs (λ t. lookup t.code_hash base.cell_dep_data_hash_to_elf) ts gs
  unfolding FromTable
  AllCarry-table elfs [] [] all carried = tt
  AllCarry-table elfs [] (g ∷ gs) all carried = carried
  AllCarry-table elfs (t ∷ ts) [] all carried = carried
  AllCarry-table elfs (t ∷ ts) (g ∷ gs) all carried = (
    record {
      version = carried.0.version;
      group_type = carried.0.group_type;
      hash = carried.0.hash;
      trace_bytes = carried.0.trace_bytes;
      elf = carried.0.elf ∙ sym all.0;
    },
    AllCarry-table elfs ts gs all.1 carried.1,
  )

  -- When the loop over at most 65536 script groups collects traces, packing them for the guest
  -- does not panic and keeps the transaction, and each trace, in order, finds under its index the
  -- program that the table of programs has under its code hash.
  pub accumulate_traces-to_guest :
      (groups : List VerifierGroupMetadata) (ts : List ScriptGroupTraces) (raw_tx : Bytes)
      → accumulate_traces crates tracer base groups ≡ ok ts
      → length groups ≤ 2 ^ 16
      → (g : Guest.TransactionProofContext) × (to_guest {E = Stop}
            (record { transaction = raw_tx; vm_traces = ts })
          ≡ ok g)
        × (g.raw_transaction_bytes ≡ raw_tx)
        × AllCarry g.machine_program_elfs
            (λ t. lookup t.code_hash base.cell_dep_data_hash_to_elf)
            ts
            g.vm_traces
  accumulate_traces-to_guest groups ts raw_tx run room =
      let few : length ts ≤ length groups = rw run at (length-accumulate_traces groups) in
      let (g, packed, kept_tx, carried) =
        to_guest-faithful {E = Stop} (record { transaction = raw_tx; vm_traces = ts })
          (omega (arith, few)) (accumulate_traces-IsConsistent groups ts run) in
      (
        g,
        packed,
        kept_tx,
        AllCarry-table g.machine_program_elfs ts g.vm_traces
            (rw run at (accumulate_traces-FromTable groups)) carried,
      )
