-- ===== src/Reads.antt =====
-- `io_worker::handle_socket_read` of src/server.cpp: the loop that reads a socket until it would
-- block. The results of the `read` calls are an argument.
pub mod Stream
use apiserver_asymetric_encr.Base.{
  ◌==◌, if◌then◌else◌, ℕ, Bool, true, false, none, some, List, [], ◌∷◌,
}
use apiserver_asymetric_encr.Text.{Bytes}
use apiserver_asymetric_encr.Request.Model.{Parser}
use apiserver_asymetric_encr.Request.Buffer.{available_size}
use apiserver_asymetric_encr.Request.Eof.{receive_bytes, eof}

pub data ReadResult : Type 0 where
  read_bytes : Bytes → ReadResult
  read_blocks read_ends read_fails : ReadResult

-- The connection stays, with its parser and `close_after_write` set or not, or it is closed.
pub data ReadOutcome (J : Type 0) : Type 0 where
  stays : Parser J → Bool → ReadOutcome J
  closed : ReadOutcome J

-- Behind the end of the results, the socket would block.
unfoldable pub handle_socket_read : {J : Type 0} → ℕ → List ReadResult → Parser J → ReadOutcome J
handle_socket_read max_size [] p = if available_size p.buffer == 0 then closed else stays p false
handle_socket_read max_size (r ∷ rest) p =
    let continue : Bytes → ReadOutcome _ = λ chunk.
      let (q, e) = receive_bytes max_size chunk p in
      let later = handle_socket_read max_size rest q in
      elim e [ some err ↦ closed | none ↦ later ] in
    if available_size p.buffer == 0 then closed else elim r [
      | read_bytes chunk ↦ continue chunk
      | read_blocks ↦ stays p false
      | read_ends ↦ let (complete, q) = eof p in if complete then stays q true else closed
      | read_fails ↦ closed
    ]
