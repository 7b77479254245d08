-- ===== src/Host/Pack/RawExamples.antt =====
-- A stand-in for bincode: every vector is preceded by its length.
use jolt_ncp.Base.{
  ℕ, zero, suc, ◌≡◌, refl, ap, List, [], ◌∷◌, ◌++◌, some, length, take, drop, arith, Outcome, ok,
  Bytes,
}
use jolt_ncp.Host.Text.{Text}
use jolt_ncp.Host.Errors.{HostError}
use jolt_ncp.Guest.Types as Guest
use jolt_ncp.Host.NcpTypes as Ncp
use jolt_ncp.Host.Pack.{to_guest, to_raw_bytes}
use jolt_ncp.Host.Pack.Agree.{ncp_context}
use jolt_ncp.Host.Pack.Faithful.{AllCarry}
use jolt_ncp.Host.Pack.RawBytes.{IsCodec, to_raw_bytes-deserialized}
use jolt_ncp.Host.Pack.Examples.{context, context-IsConsistent}

-- Writers put their value before what follows, readers hand on what follows.
abbrev Reader : Type 0 → Type 0
Reader A = Bytes → A × Bytes

abbrev Reads : {A : Type 0} → (A → Bytes → Bytes) → Reader A → Type 0
Reads {A = A} write reader = (a : A) (more : Bytes) → reader (write a more) ≡ (a, more)

abbrev read_number : Reader ℕ
read_number [] = (0, [])
read_number (b ∷ bs) = (b, bs)

unfoldable write_bytes : Bytes → Bytes → Bytes
write_bytes bs more = length bs ∷ (bs ++ more)

unfoldable read_bytes : Reader Bytes
read_bytes [] = ([], [])
read_bytes (n ∷ bs) = (take n bs, drop n bs)

read_bytes_lem : Reads write_bytes read_bytes
unfolding write_bytes read_bytes
read_bytes_lem [] more = refl
read_bytes_lem (b ∷ bs) more =
    let rest = read_bytes_lem bs more in ap (λ (p : Bytes × Bytes). (b ∷ p.0, p.1)) rest

unfoldable write_each : {A : Type 0} → (A → Bytes → Bytes) → List A → Bytes → Bytes
write_each write [] more = more
write_each write (x ∷ xs) more = write x (write_each write xs more)

unfoldable read_each : {A : Type 0} → Reader A → ℕ → Reader (List A)
read_each reader zero bs = ([], bs)
read_each reader (suc n) bs =
    let (x, more) = reader bs in let (xs, last) = read_each reader n more in (x ∷ xs, last)

read_each_lem :
    {A : Type 0} (write : A → Bytes → Bytes) (reader : Reader A)
    → Reads write reader
    → (xs : List A) (more : Bytes)
    → read_each reader (length xs) (write_each write xs more) ≡ (xs, more)
unfolding write_each read_each
read_each_lem write reader h [] more = refl
read_each_lem write reader h (x ∷ xs) more =
    rw (h x (write_each write xs more), read_each_lem write reader h xs more) refl

abbrev write_vector : {A : Type 0} → (A → Bytes → Bytes) → List A → Bytes → Bytes
write_vector write xs more = length xs ∷ write_each write xs more

abbrev read_vector : {A : Type 0} → Reader A → Reader (List A)
read_vector reader bs = let (n, more) = read_number bs in read_each reader n more

unfoldable write_trace : Ncp.ScriptGroupTraces → Bytes → Bytes
write_trace t more =
    t.script_version
    ∷ t.script_group_type
    ∷ t.script_hash
    ∷ t.machine_program_elf_index
    ∷ write_bytes t.machine_trace_data more

unfoldable read_trace : Reader Ncp.ScriptGroupTraces
read_trace bs =
    let (version, a) = read_number bs in
    let (group_type, b) = read_number a in
    let (hash, c) = read_number b in
    let (index, d) = read_number c in
    let (trace_data, more) = read_bytes d in
    (
      record {
        script_version = version;
        script_group_type = group_type;
        script_hash = hash;
        machine_trace_data = trace_data;
        machine_program_elf_index = index;
      },
      more,
    )

read_trace_lem : Reads write_trace read_trace
unfolding write_trace read_trace
read_trace_lem t more = rw (read_bytes_lem t.machine_trace_data more) refl

abbrev write_context : Ncp.TransactionProofContext → Bytes
write_context x =
    write_bytes x.raw_transaction_bytes
      (write_vector write_trace x.vm_traces (write_vector write_bytes x.machine_program_elfs []))

abbrev read_context : Bytes → Ncp.TransactionProofContext
read_context bs =
    let (raw, a) = read_bytes bs in
    let (traces, b) = read_vector read_trace a in
    let (elfs, more) = read_vector read_bytes b in
    record { raw_transaction_bytes = raw; vm_traces = traces; machine_program_elfs = elfs }

read_context_lem : (x : Ncp.TransactionProofContext) → read_context (write_context x) ≡ x
read_context_lem x =
    rw
      (
        read_bytes_lem x.raw_transaction_bytes (
            write_vector write_trace x.vm_traces
              (write_vector write_bytes x.machine_program_elfs [])),
        read_each_lem write_trace read_trace read_trace_lem x.vm_traces
            (write_vector write_bytes x.machine_program_elfs []),
        read_each_lem write_bytes read_bytes read_bytes_lem x.machine_program_elfs [],
      )
      refl

abbrev serialize : Ncp.TransactionProofContext → Outcome Text Bytes
serialize x = ok (write_context x)

abbrev deserialize : Bytes → Outcome Text Ncp.TransactionProofContext
deserialize bs = ok (read_context bs)

codec : IsCodec serialize deserialize
codec = record {
  writes = write_context;
  serialized = λ x. refl;
  deserialized = λ x. ap ok (read_context_lem x);
}

to_raw_bytes-deserialized_example :
    (g : Guest.TransactionProofContext) × (to_guest {E = HostError} context ≡ ok g)
    × ((bs : Bytes) × (to_raw_bytes serialize context ≡ ok bs)
        × (deserialize bs ≡ ok (ncp_context g)))
    × (g.raw_transaction_bytes ≡ context.transaction)
    × AllCarry g.machine_program_elfs
        (λ t. some t.machine_program_elf)
        context.vm_traces
        g.vm_traces
to_raw_bytes-deserialized_example =
    to_raw_bytes-deserialized codec context (omega arith) context-IsConsistent
