-- ===== src/Request.antt =====
-- The HTTP request parser of src/http_request.hpp and src/http_request.cpp, over the socket buffer
-- of src/socket_buffer.hpp.
pub mod Buffer
pub mod Model
pub mod Uri
pub mod Headers
pub mod Multipart
pub mod Body
pub mod Eof
pub mod Finalize
pub mod Access
