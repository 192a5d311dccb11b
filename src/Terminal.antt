-- ===== src/Terminal.antt =====
-- internal/terminal: the sessions, their output buffers and their registry. This file has the data
-- of types.go. A time is a number of nanoseconds; an empty close reason is `none`.
pub mod Buffer
pub mod Manager
use shell_watch.Base.{ℕ, String, Option}

pub data Status : Type 0 where
  opening open_now closing closed error : Status

unfoldable pub Status-discrete : Discrete Status
Status-discrete = hlevel

pub data Source : Type 0 where
  ui mcp ssh : Source

unfoldable pub Source-discrete : Discrete Source
Source-discrete = hlevel

pub data CloseReason : Type 0 where
  client_ui client_mcp client_ws agent_disconnect idle_timeout account_deleted : CloseReason
  server_hangup transport_error shutdown : CloseReason

pub record Session : Type 0 where
  pub session_id : String
  pub endpoint_id : String
  pub account_id : String
  pub status : Status
  pub created_at : ℕ
  pub last_activity_at : ℕ
  pub source : Source
  pub close_reason : Option CloseReason
  pub source_ip : String
  pub owner_client_id : String
  pub mcp_reason : String
  pub mcp_client_name : String
  pub mcp_client_ver : String

pub record Trigger : Type 0 where
  pub kind : Source
  pub source_ip : String
  pub reason : String
  pub owner_client_id : String
  pub mcp_client_name : String
  pub mcp_client_ver : String

-- What the manager reads of an endpoint.
pub record EndpointRef : Type 0 where
  pub id : String
  pub account_id : String
