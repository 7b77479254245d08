-- ===== src/Chain.antt =====
-- The types of the ckb-types and ckb-script crates that the host reads, with the fields and the
-- variants that its code names. A `Byte32` is the number that its 32 bytes spell.
use jolt_ncp.Base.{ℕ, List, Option, Bytes}

abbrev pub Byte32 : Type 0
Byte32 = ℕ

pub data ScriptVersion : Type 0 where
  v0 v1 v2 : ScriptVersion

pub data ScriptGroupType : Type 0 where
  lock type_script : ScriptGroupType

pub record Script : Type 0 where
  pub code_hash : Byte32
  pub hash_type : ℕ
  pub args : Bytes

pub record ScriptGroup : Type 0 where
  pub script : Script

pub record OutPoint : Type 0 where
  pub tx_hash : Byte32
  pub index : ℕ

pub data DepType : Type 0 where
  code dep_group : DepType

pub record CellDep : Type 0 where
  pub out_point : OutPoint
  pub dep_type : DepType

pub record CellOutput : Type 0 where
  pub capacity : ℕ
  pub lock_script : Script
  pub type_ : Option Script

pub record CellInput : Type 0 where
  pub previous_output : OutPoint
  pub since : ℕ

-- `outputs` and `outputs_data` are two vectors, which need not be of one length.
pub record Transaction : Type 0 where
  pub inputs : List CellInput
  pub cell_deps : List CellDep
  pub header_deps : List Byte32
  pub outputs : List CellOutput
  pub outputs_data : List Bytes
