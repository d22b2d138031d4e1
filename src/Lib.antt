-- ===== src/Lib.antt =====
-- Verification of the API server of this repository: an epoll server in C++ that parses HTTP
-- requests, checks and routes them, runs endpoint handlers on a thread pool, and sends their
-- responses; with the tokens, the one-time passwords, the encryption, the database calls and the
-- settings that its endpoints use.
--
-- How the parts interact. An I/O worker (`server::io_worker`, src/server.cpp) accepts connections,
-- reads each into the socket buffer of its parser, and asks the parser whether the request is
-- complete. A complete request is finalized, checked against the allowed origins and routed: to
-- one of the server's own paths, or as a task to the thread pool. The task checks the token, runs
-- the validator and the handler, and pushes a response on the response queue, from which the I/O
-- worker delivers it to the connection that asked.
--
-- What models what:
-- Base, Text: shared lists, tests, 32-bit and 64-bit arithmetic, and byte strings. A
--   `std::string_view` is its bytes.
-- Request: src/http_request.cpp and src/http_request.hpp. Request.Buffer is src/socket_buffer.hpp;
--   Request.Model the state of `request_parser` and its maps; Request.Uri, Request.Headers,
--   Request.Multipart and Request.Body the parsing steps; Request.Eof is `eof`, Request.Finalize
--   `finalize`, Request.Access the class `request`.
-- Reads: the read loop `handle_socket_read` of src/server.cpp.
-- Validator: src/input_validator.hpp. Router: src/api_router.hpp and src/webapi_path.hpp.
-- Server: src/http_response.hpp (what a response holds; Server.Message is the text of it), and, of
--   src/server.cpp, the token and origin checks (Server.Authorize, with src/cors.hpp),
--   `execute_handler` (Server.Handler), `route_parsed_request`, `handle_internal_api` and
--   `process_request` (Server.Routing) and `dispatch_to_worker` (Server.Dispatch).
-- Connections: the map of connections, the timeout list and the writing of responses in
--   src/server.cpp, with `connection_state` of src/server.hpp.
-- Events: the event loop of src/server.cpp: `handle_epoll_event` and the handlers below it, which
--   put the connections, the parser, the dispatch and the queues together; Events.Loop is the loop
--   beside the threads of the pool, and Events.Shutdown the drain.
-- Pool: src/shared_queue.hpp, and in Pool.Workers src/thread_pool.hpp as a step relation.
--   Pool.Executor is the abstract executor that the thread pool stands for: a queue of accepted tasks
--   and a bag of running ones, without threads, count and flags.
-- Crypto: src/aes_gcm.hpp. Otp: src/otp.hpp. Jwt: src/jwt.cpp, in Jwt.Token the issuing of tokens, in
--   Jwt.Instance the service that is made once from the settings. Its times are nanoseconds in 64
--   bits, as `std::chrono::system_clock` has them in libstdc++, and what overflows them is taken to
--   wrap around.
-- Mfa: src/mfa.hpp, the second factor. Env: src/env.hpp, the settings.
-- Sql: the rows (Sql.Rows, src/sql.hpp and src/sql.cpp), the text of a column in pieces
--   (Sql.Fetch), what a query returns (Sql.Results), its columns (Sql.Describe), the JSON of a result
--   set (Sql.Json, with the loops in Sql.Json.Build), the binding of parameters (Sql.Params), and the
--   calls `get`, `query`, `exec` and `get_json` with the thread's caches (Sql.Calls) of src/sql.tpp
--   and src/sql.cpp.
-- Logger: the log lines of src/logger.hpp.
-- Tests: each theorem at a concrete input.
--
-- A function that may throw or fail returns an Option, a result type of its own, or the state with
-- an optional error; state is passed explicitly. Loops over text and lists are structural, so
-- there is no fuel; the loop of `is_valid_token` counts its steps, and that of a database call its
-- attempts, as the code does. Only the reader of JSON that a theorem compares with
-- (Sql.Json.Reader) has fuel: the numbers of columns and rows, which bound the members and the
-- objects. Numbers of type size_t keep their wrap-around where the code does arithmetic on them.
-- Results of system calls (read, write, accept4, epoll_ctl, getenv), the clock and random bytes
-- are arguments. Parameters stand for code of other projects: json-c (`parse_json`, `get_map`,
-- `has_key`, `get_string`, `build`), OpenSSL (`seal`, `unseal`, `hmac`, `hmac_sha1`,
-- `encode_block`, `read_base64`), ODBC (the record `Odbc` of Sql.Calls, the record
-- `Driver` of Sql.Params, and the lists of what SQLGetData and SQLDescribeCol return in Sql.Fetch and
-- Sql.Describe) and compiled regular expressions. What a moved-from parser or text holds is a
-- function that the definitions take as an argument.
--
-- Not modelled: metrics, the log lines that the other parts write, the reading of dates from
-- parameters, the HTTP client, the decryption of files (src/pkeyutil.cpp), and the set-up of the
-- process and of the descriptors of a worker.
mod Base
pub mod Text
pub mod Request
pub mod Validator
pub mod Router
pub mod Server
pub mod Pool
pub mod Crypto
pub mod Otp
pub mod Connections
pub mod Jwt
pub mod Logger
pub mod Env
pub mod Events
pub mod Sql
pub mod Mfa
pub mod Reads
mod Tests
