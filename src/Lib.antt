-- ===== src/Lib.antt =====
-- jolt-ncp replays CKB transactions inside the Jolt zero-knowledge virtual machine. The host crate
-- (src) fetches a transaction and every cell and header that it names from a CKB node over JSON-RPC,
-- lays them out as a mock transaction, lets CKB's verifier trace the transaction's scripts, and packs
-- the traces for the guest. The guest crate (guest/src) is what Jolt proves: it replays a trace in
-- CKB-VM. This library models the parts that hold the program's own logic.
--
-- Where what is modelled:
--   Base             results with errors and panics (Base/Fallible), 64-bit sums and little-endian
--                    bytes (Base/LittleEndian), hash maps as association lists (Base/Assoc), list
--                    operations over the native numbers (Base/Lists, Base/Tests).
--   Chain            the types of the ckb-types and ckb-script crates, with the fields that are read.
--   Guest/Types      guest/src/lib.rs: the context and the traces that the guest receives.
--   Guest/Memory     guest/src/jolt_memory.rs: the struct JoltMemory, its constructor, flags, loads
--                    and bulk loads; Guest/Memory/Write has the stores. The methods keep their names.
--                    Guest/Memory/Valid has the invariant, Stores the abstract store, Loads, ReadWrite
--                    and Compose the laws between loads and stores. Cells is an array of
--                    bytes as a client sees it, Session relates rows of accesses to it; Segment
--                    and Init are about `init_pages`, Reach about every memory that the methods can
--                    leave.
--   Host/Types, Host/NcpTypes
--                    src/types/types.rs and src/types/ncp_types.rs: the host's context and the
--                    serialised one. Host/Errors: src/types/error.rs. Host/GuestOutput:
--                    src/types/guest_output_types.rs.
--   Host/Pack        the two From implementations of src/types/types.rs, `to_guest` and `to_ncp`, with
--                    the table that gives each code hash an index, and `to_raw_bytes`; the
--                    serialised bytes are followed in Host/Pack/RawBytes, the programs in
--                    Host/Pack/Programs.
--   Host/Json, Host/Text
--                    the crates serde_json and ckb-jsonrpc-types as an interface, and the texts that
--                    `format!` builds.
--   Host/Rpc         src/rpc_client.rs: the requests `get_*` and the decoders `decode_*`;
--                    Host/Rpc/Ids is about the ids that they draw.
--   Host/Batch       src/rpc_client.rs: the client, `exec` and `exec_batch`.
--   Host/Convert     src/tx_converter.rs: `tx_to_mock_tx`. Host/Convert/Ledger is its specification,
--                    a map from out points to cells; Calls, Layout, Stages and Correct are about
--                    the success, Failures about the errors, and Log adds what is printed.
--   Host/Node        a concrete node for the tests.
--   Host/Verifier    src/vefier_context.rs: the two contexts, over the interface of Host/Crates.
--                    Host/Verifier/Programs relates the table of programs to the searches,
--                    Contexts the two contexts of one transaction.
--   Host/Executor    src/lib.rs, src/type_id.rs and src/collect_vm_syscalls.rs: `run`, `execute` and
--                    `accumulate_traces`; Host/Executor/Traces has what the loop collects,
--                    Host/Executor/Run the whole run, Missing and Failures the errors, Replayed the
--                    panic flag of the proof. Log, Report and RunLog have the same functions with
--                    the lines that they print (Host/Printed), Logged, NoProof and ProofLine what
--                    these lines are; Sizes is about the size of the input.
--   Guest/Exec       guest/src/executor.rs, guest/src/exec_syscall_handler.rs and the entry point of
--                    guest/src/lib.rs; Guest/Exec/Replay follows a trace from the host to the replay,
--                    Exit its exit code.
--   Host/VmTree      src/collect_vm_creation.rs: `print_vm_tree`, with a fuel for the recursion, which
--                    Fuel and Whole are about, and Drawing the tree that it draws; Render has the
--                    text of a line, Aligned its columns, Collect the two collections and that of
--                    src/collect_vm_syscalls.rs.
--   Host/Cli         src/cli.rs, src/config.rs and src/main.rs: the arguments, the node's address
--                    (Host/Cli/Address) and the ends of the process (Host/Cli/Ends, and
--                    Host/Cli/Returns and Host/Cli/Whole where nothing is missing).
--
-- How state and errors are modelled. A method on `&mut self` is a function from a memory to a result
-- and a memory (`Step`), with every change made before an error kept. `Outcome` has `ok`, `err` and
-- `panic`; a failed index, `assert!`, `unwrap`, `expect` or `unreachable!` is `panic`. The
-- host's executor stops with a `Stop`, an error or an exit of the process with its code. The request
-- counter of the client is a number that is passed along and wraps at 2^64. Sums of `u64` and `usize`
-- wrap at 2^64, as in a release build.
--
-- Bounds. The index of a program is a `u16`, so the theorem on the packing asks for at most 65536
-- traces. The theorems on the conversion ask that the counter does not wrap during it. Loops are
-- structural but for the recursion of `print_vm_tree_recursive`, which takes a fuel: where machines
-- spawn machines with larger ids only, a fuel of the number of ids is enough.
--
-- Parameters. `CkbVm` stands for the functions of the ckb-vm crate that the memory calls, `IsCkbVm`
-- for what that crate documents of them; `Json` for the JSON conversions, `Network` for the HTTP
-- client, `IsServer` for a server that answers each request by itself, in any order; the parser of a
-- group's out points and `is_cellbase` are functions.
-- `Crates` stands for ckb-script and the crates around it, `Tracer` for the syscall tracer, `Prover`
-- for Jolt and `Replayer` for CKB-VM with the replay of syscalls. The collector
-- of a spawn tree and bincode are functions; `IsCodec` says that bincode reads back what it
-- writes, `FillsPages` how CKB-VM fills a range of pages.
--
-- Not modelled: the verifier, the tracers, the prover and CKB-VM itself, which are other projects
-- (forks/ckb-vm-asm is a copy of the last); clap's parser and the logger of src/main.rs;
-- guest/src/main.rs, which only imports; and the timing macro of src/macros.rs.
pub mod Base
pub mod Chain
pub mod Guest
pub mod Host
