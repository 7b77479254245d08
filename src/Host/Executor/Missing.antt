-- ===== src/Host/Executor/Missing.antt =====
-- The errors of the loop over the script groups.
use jolt_ncp.Base.{
  ◌≡◌, refl, ◌⊎◌, inl, inr, false, List, [], ◌∷◌, ◌++◌, none, ok, err, Bool-cases, Option-cases,
  lookup, sym, ◌∙◌, ap, Outcome-cases,
}
use jolt_ncp.Host.Text.{Text, lit}
use jolt_ncp.Host.Errors.{Stop, returned_error, exit_process, program_elf_not_found}
use jolt_ncp.Host.Crates.{Crates}
use jolt_ncp.Host.Verifier.{VerifierGroupContext, VerifierGroupMetadata, get_program_elf}
use jolt_ncp.Host.Executor.{
  CollectorResult, Tracer, is_type_id_group, script_trace, accumulate_traces,
}

module _ {H : Type 0} (crates : Crates H) (tracer : Tracer crates) where
  open tracer use {Locator, Syscalls}

  -- A group to trace, whose syscalls are collected and whose program is not in the table.
  pub record LacksProgram (base : VerifierGroupContext crates) (groups : List VerifierGroupMetadata)
      : Type 0 where
    pub before : List VerifierGroupMetadata
    pub metadata : VerifierGroupMetadata
    pub after : List VerifierGroupMetadata
    pub collected : CollectorResult Locator Syscalls
    pub split : groups ≡ before ++ (metadata ∷ after)
    pub traced : is_type_id_group crates tracer metadata.2 ≡ false
    pub collects : tracer.collect base metadata.2 ≡ ok collected
    pub missing : lookup metadata.2.script.code_hash base.cell_dep_data_hash_to_elf ≡ none

  -- A group to trace, whose syscalls the tracer fails to collect for a reason.
  pub record FailsToTrace (base : VerifierGroupContext crates) (groups : List VerifierGroupMetadata)
      (reason : Text) : Type 0 where
    pub before : List VerifierGroupMetadata
    pub metadata : VerifierGroupMetadata
    pub after : List VerifierGroupMetadata
    pub split : groups ≡ before ++ (metadata ∷ after)
    pub traced : is_type_id_group crates tracer metadata.2 ≡ false
    pub fails : tracer.collect base metadata.2 ≡ err reason

  -- The exit for a reason.
  abbrev pub untraced : Text → Stop
  untraced reason = exit_process 254 (lit "collect_vm_syscalls_for_group: " ∷ reason)

  script_trace-error :
      (base : VerifierGroupContext crates) (m : VerifierGroupMetadata) (e : Stop)
      → script_trace crates tracer base m ≡ err e
      → ((e ≡ returned_error program_elf_not_found)
          × ((r : CollectorResult Locator Syscalls) × (tracer.collect base m.2 ≡ ok r))
          × (lookup m.2.script.code_hash base.cell_dep_data_hash_to_elf ≡ none))
        ⊎ ((t : Text) × (e ≡ untraced t) × (tracer.collect base m.2 ≡ err t))
  unfolding script_trace get_program_elf
  script_trace-error base (ty, h, group, v) e failed =
      elim (Outcome-cases (tracer.collect base group)) [
        | inl (r, collects) ↦
            elim (Option-cases (lookup group.script.code_hash base.cell_dep_data_hash_to_elf)) [
              | inl missing ↦ inl (cc, (r, collects), missing)
              | inr (elf, found) ↦ cc
            ]
        | inr (inl (t, collects)) ↦ inr (t, cc, collects)
        | inr (inr collects) ↦ cc
      ]

  skipped-LacksProgram :
      (base : VerifierGroupContext crates) (m : VerifierGroupMetadata)
      (ms : List VerifierGroupMetadata)
      → LacksProgram base ms
      → LacksProgram base (m ∷ ms)
  skipped-LacksProgram base m ms h = record {
    before = m ∷ h.before;
    metadata = h.metadata;
    after = h.after;
    collected = h.collected;
    split = ap (◌∷◌ m) h.split;
    traced = h.traced;
    collects = h.collects;
    missing = h.missing;
  }

  skipped-FailsToTrace :
      (base : VerifierGroupContext crates) (m : VerifierGroupMetadata)
      (ms : List VerifierGroupMetadata) (reason : Text)
      → FailsToTrace base ms reason
      → FailsToTrace base (m ∷ ms) reason
  skipped-FailsToTrace base m ms reason h = record {
    before = m ∷ h.before;
    metadata = h.metadata;
    after = h.after;
    split = ap (◌∷◌ m) h.split;
    traced = h.traced;
    fails = h.fails;
  }

  -- How the loop over the groups stops short of its end.
  abbrev pub StopsAt : VerifierGroupContext crates → List VerifierGroupMetadata → Stop → Type 0
  StopsAt base groups e =
      ((e ≡ returned_error program_elf_not_found) × LacksProgram base groups)
      ⊎ ((t : Text) × (e ≡ untraced t) × FailsToTrace base groups t)

  skipped-StopsAt :
      (base : VerifierGroupContext crates) (m : VerifierGroupMetadata)
      (ms : List VerifierGroupMetadata) (e' e : Stop)
      → e' ≡ e
      → StopsAt base ms e'
      → StopsAt base (m ∷ ms) e
  skipped-StopsAt base m ms e' e same (inl (kind, lacks)) =
      inl (sym same ∙ kind, skipped-LacksProgram base m ms lacks)
  skipped-StopsAt base m ms e' e same (inr (t, kind, untraceable)) =
      inr (t, sym same ∙ kind, skipped-FailsToTrace base m ms t untraceable)

  -- The loop over the groups stops in two ways only.
  pub accumulate_traces-error :
      (base : VerifierGroupContext crates) (groups : List VerifierGroupMetadata) (e : Stop)
      → accumulate_traces crates tracer base groups ≡ err e
      → StopsAt base groups e
  unfolding accumulate_traces
  accumulate_traces-error base [] e failed = cc
  accumulate_traces-error base ((t, h, group, v) ∷ ms) e failed =
      elim (Bool-cases (is_type_id_group crates tracer group)) [
        | inl built_in ↦
            skipped-StopsAt base (t, h, group, v) ms e e refl
              (accumulate_traces-error base ms e (rw built_in at failed))
        | inr traced ↦ elim (Outcome-cases (script_trace crates tracer base (t, h, group, v))) [
          | inl (trace, fine) ↦ elim (Outcome-cases (accumulate_traces crates tracer base ms)) [
            | inl (traces, fine') ↦ cc
            | inr (inl (e', failed')) ↦
                let same : e' ≡ e = cc in
                skipped-StopsAt base (t, h, group, v) ms e' e same
                  (accumulate_traces-error base ms e' failed')
            | inr (inr stuck) ↦ cc
          ]
          | inr (inl (e', failed')) ↦ elim (script_trace-error base (t, h, group, v) e' failed') [
            | inl (kind, collected, missing) ↦ inl (
              cc,
              record {
                before = [];
                metadata = (t, h, group, v);
                after = ms;
                collected = collected.0;
                split = refl;
                traced = traced;
                collects = collected.1;
                missing = missing;
              },
            )
            | inr (reason, kind, fails) ↦ inr (
              reason,
              cc,
              record {
                before = [];
                metadata = (t, h, group, v);
                after = ms;
                split = refl;
                traced = traced;
                fails = fails;
              },
            )
          ]
          | inr (inr stuck) ↦ cc
        ]
      ]
