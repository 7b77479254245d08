-- ===== src/Host/Pack/RawBytes.antt =====
-- The serialised input, and what its reader finds.
use jolt_ncp.Base.{◌^◌, ◌≤◌, ◌≡◌, refl, some, length, Outcome, ok, Bytes}
use jolt_ncp.Host.Text.{Text}
use jolt_ncp.Host.Errors.{HostError}
use jolt_ncp.Guest.Types as Guest
use jolt_ncp.Host.NcpTypes as Ncp
use jolt_ncp.Host.Types.{TransactionProofContext}
use jolt_ncp.Host.Pack.{to_guest, to_ncp, to_raw_bytes}
use jolt_ncp.Host.Pack.Agree.{ncp_context, to_ncp-to_guest}
use jolt_ncp.Host.Pack.Faithful.{AllCarry, IsConsistent, to_guest-faithful}

-- bincode, on the serialised type: it writes every value, and reads back what it wrote.
pub record IsCodec (serialize : Ncp.TransactionProofContext → Outcome Text Bytes)
    (deserialize : Bytes → Outcome Text Ncp.TransactionProofContext) : Type 0 where
  pub writes : Ncp.TransactionProofContext → Bytes
  pub serialized : (x : Ncp.TransactionProofContext) → serialize x ≡ ok (writes x)
  pub deserialized : (x : Ncp.TransactionProofContext) → deserialize (writes x) ≡ ok x

-- For at most 65536 traces in which one code hash has one program, where bincode writes every
-- value and reads back what it wrote, `to_raw_bytes` succeeds, and its bytes are read as the
-- context that the guest is sent, with the transaction kept and the program of each trace, in
-- order, under its index.
pub to_raw_bytes-deserialized :
    {serialize : Ncp.TransactionProofContext → Outcome Text Bytes}
    {deserialize : Bytes → Outcome Text Ncp.TransactionProofContext}
    (codec : IsCodec serialize deserialize) (ctx : TransactionProofContext)
    → length ctx.vm_traces ≤ 2 ^ 16
    → IsConsistent ctx.vm_traces
    → (g : Guest.TransactionProofContext) × (to_guest {E = HostError} ctx ≡ ok g)
      × ((bs : Bytes) × (to_raw_bytes serialize ctx ≡ ok bs)
          × (deserialize bs ≡ ok (ncp_context g)))
      × (g.raw_transaction_bytes ≡ ctx.transaction)
      × AllCarry g.machine_program_elfs (λ t. some t.machine_program_elf) ctx.vm_traces g.vm_traces
unfolding to_raw_bytes
to_raw_bytes-deserialized codec ctx room same =
    let (g, packed, kept, carried) = to_guest-faithful {E = HostError} ctx room same in
    let agree : to_ncp {E = HostError} ctx ≡ ok (ncp_context g) =
      rw (to_ncp-to_guest {E = HostError} ctx, packed) refl in
    (
      g,
      packed,
      (
        codec.writes (ncp_context g),
        rw (agree, codec.serialized (ncp_context g)) refl,
        codec.deserialized (ncp_context g),
      ),
      kept,
      carried,
    )
