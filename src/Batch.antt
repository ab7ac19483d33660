-- ===== src/Batch.antt =====
-- internal/mcpbatch: a batch of tool calls to an MCP server. `Input` reads and checks the request,
-- `Preflight` holds the calls against the approved and the current tools, and `Pool` runs them.
pub mod Input
pub mod Preflight
pub mod Pool
use jinn.Base.{ℕ, ◌*◌, ◌^◌, Bool, Option, List, Bytes, ℤ}

-- One call; the type of its arguments, a decoded JSON object, is `A`.
pub record Call (A : Type 0) : Type 0 where
  pub id : Bytes
  pub tool : Bytes
  pub arguments : Option A
  pub select : Option Bytes
  pub head : Option ℤ

-- The request; the timeout of a call is in nanoseconds.
pub record Request (A : Type 0) : Type 0 where
  pub version : ℤ
  pub max_concurrency : Option ℤ
  pub fail_fast : Bool
  pub calls : List (Call A)
  pub call_timeout : ℤ

abbrev pub max_input_bytes : ℕ
max_input_bytes = 2 ^ 20
