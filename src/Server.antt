-- ===== src/Server.antt =====
-- server.c and server.h: the connection to a server. The types that its parts share.
-- `C` is what a callback pointer and its user data stand for; the code that they point to is
-- given to the functions that call it.
pub mod Names
pub mod Frames
pub mod Send
pub mod Format
pub mod Dispatch
mod Tests
use Prim.Native.String.{String}
use galaxie.Prelude.{ℕ, List, Option, Bool}

-- What the header and the body of a packet hold, as bit patterns: the arguments of
-- `server_handle_packet`.
pub record Packet : Type 0 where
  pub proto : ℕ
  pub seq : ℕ
  pub type : ℕ
  pub len : ℕ
  pub body : List ℕ

-- `struct msg`, less the pointers to the server and to the program's state.
pub record Msg : Type 0 where
  pub type : String
  pub seq : ℕ
  pub len : ℕ
  pub protocol : ℕ
  pub body : List ℕ

-- `struct server_cb`, less the links of the list; `cb` may be NULL.
pub record ServerCb (C : Type 0) : Type 0 where
  pub seq : ℕ
  pub cb : Option C
  pub deleteme : Bool

-- `struct server`, less its buffer, which Frames has beside it. `sent` are the packets given to
-- `ecore_con_server_send`, oldest first.
pub record Server (C : Type 0) : Type 0 where
  pub seq : ℕ
  pub cbs : List (ServerCb C)
  pub header : ℕ
  pub protocol : ℕ
  pub sent : List (List ℕ)
