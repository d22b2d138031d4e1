-- ===== src/Request/Buffer.antt =====
-- `socket_buffer` of src/socket_buffer.hpp: the bytes read from a socket, in a vector that doubles.
pub mod Growth
use apiserver_asymetric_encr.Base.{
  ltb, leb, ◌==◌, if◌then◌else◌, length, take, drop, ℤ, pos, negsuc, size_mod, add_size, sub_size,
  ℕ, zero, suc, ◌+◌, ◌-◌, ◌*◌, ◌%◌, min, Bool, not, Option, none, some, ◌++◌,
}
use apiserver_asymetric_encr.Text.{Bytes, zeros}

-- `m_buffer` and `m_pos`.
pub record SocketBuffer : Type 0 where
  pub buffer : Bytes
  pub filled : ℕ

abbrev pub chunk_size : ℕ
chunk_size = 4096

-- A fresh `socket_buffer`.
unfoldable pub new_buffer : SocketBuffer
new_buffer = record { buffer = zeros chunk_size; filled = 0 }

abbrev pub buffer_size : SocketBuffer → ℕ
buffer_size b = length b.buffer

unfoldable pub available_size : SocketBuffer → ℕ
available_size b = sub_size (length b.buffer) b.filled

abbrev pub size : SocketBuffer → ℕ
size b = b.filled

abbrev pub empty : SocketBuffer → Bool
empty b = b.filled == 0

unfoldable pub view : SocketBuffer → Bytes
view b = take b.filled b.buffer

-- `read(fd, buffer().data(), buffer().size())`, when it brings `chunk`: the bytes land in the span.
unfoldable pub store : SocketBuffer → Bytes → SocketBuffer
store b chunk = record b {
  buffer = take b.filled b.buffer ++ (chunk ++ drop (b.filled + length chunk) b.buffer);
}

-- `m_buffer.resize(n)`, for an `n` that is no less than the size.
unfoldable pub resize : Bytes → ℕ → Bytes
resize s n = s ++ zeros (n - length s)

pub data BufferError : Type 0 where
  max_size_reached : ℕ → BufferError

-- `update_pos`: the new buffer, or the exception with the buffer as it is left.
unfoldable pub update_pos : ℕ → ℤ → SocketBuffer → SocketBuffer × Option BufferError
unfolding resize
update_pos max_size (negsuc n) b = (b, none)
update_pos max_size (pos zero) b = (b, none)
update_pos max_size (pos (suc n)) b =
    let b' : SocketBuffer = record b { filled = add_size b.filled (suc n) } in
    if not (ltb ((buffer_size b' * 3) % size_mod) ((b'.filled * 4) % size_mod))
    then (b', none)
    else if leb max_size (buffer_size b')
    then (b', some (max_size_reached max_size))
    else (
      record b' { buffer = resize b'.buffer (min ((buffer_size b' * 2) % size_mod) max_size) },
      none,
    )
