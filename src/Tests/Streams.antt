-- ===== src/Tests/Streams.antt =====
-- The theorems on reading from a socket, at a small buffer.
use apiserver_asymetric_encr.Base.{
  length, ℕ, ◌*◌, ◌<◌, ◌≡◌, refl, ◌⊎◌, false, none, List, [], ◌∷◌, ◌++◌, map, arith,
}
use apiserver_asymetric_encr.Text.{Bytes, bytes, zeros}
use apiserver_asymetric_encr.Request.Model.{unknown, Parser}
use apiserver_asymetric_encr.Request.Buffer.{
  SocketBuffer, available_size, view, store, resize, update_pos,
}
use apiserver_asymetric_encr.Request.Buffer.Growth.{IsValid}
use apiserver_asymetric_encr.Request.Eof.{receive_bytes}
use apiserver_asymetric_encr.Reads.{read_bytes, stays, closed, handle_socket_read}
use apiserver_asymetric_encr.Reads.Stream.{concat, Fits, handle_socket_read_stream}

abbrev small_buffer : SocketBuffer
small_buffer = record { buffer = zeros 8; filled = 0 }

small_buffer-IsValid : IsValid 4096 small_buffer
small_buffer-IsValid = record {
  sized = omega arith;
  inside = omega arith;
  bounded = omega arith;
  nonempty = omega arith;
}

abbrev reader : Parser ℕ
reader = record {
  buffer = small_buffer;
  json_payload = none;
  parsed_method = unknown;
  identified_method = none;
  identified_content_length = none;
  identified_header_size = none;
  headers = [];
  params = [];
  body = none;
  file_parts = [];
  path = [];
  content_length = 0;
  header_size = 0;
  is_finalized = false;
}

abbrev pieces : List Bytes
pieces = bytes "GET /" ∷ bytes "a H" ∷ []

reader-room : 0 < available_size reader.buffer
unfolding available_size
reader-room = omega arith

pieces-Fits : Fits 4096 pieces reader
unfolding receive_bytes update_pos store resize available_size
pieces-Fits = (omega arith, omega arith, (omega arith, omega arith, tt))

handle_socket_read_stream_example :
    ((q : Parser ℕ) × (handle_socket_read 4096 (map read_bytes pieces) reader ≡ stays q false)
      × (view q.buffer ≡ view reader.buffer ++ concat pieces)
      × IsValid 4096 q.buffer
      × (0 < available_size q.buffer))
    ⊎ ((handle_socket_read 4096 (map read_bytes pieces) reader ≡ closed)
        × (3 * 4096 < 4 * length (view reader.buffer ++ concat pieces)))
handle_socket_read_stream_example =
    handle_socket_read_stream 4096 pieces reader small_buffer-IsValid reader-room refl pieces-Fits
