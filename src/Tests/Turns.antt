-- ===== src/Tests/Turns.antt =====
-- A run of the loop of src/server.cpp, from its start on.
use apiserver_asymetric_encr.Base.{ℕ, ◌≡◌, refl, true, false, none, some, [], ◌∷◌, arith}
use apiserver_asymetric_encr.Text.{
  bytes, same, starts_with, ends_with, find, find_if, find_last_if, push_front, split_from, split,
  trim_left, trim_right, trim_sv, tolower, sv_ci_equal, sv_ci_hash_from, sv_ci_hash, take_digits,
  from_chars_size,
}
use apiserver_asymetric_encr.Request.Buffer.{
  new_buffer, available_size, view, store, resize, update_pos,
}
use apiserver_asymetric_encr.Request.Model.{
  same_method, new_parser, lookup_by, emplace_by, find_header, emplace_header, find_param,
  emplace_param,
}
use apiserver_asymetric_encr.Request.Access.{make_request, get_header_value}
use apiserver_asymetric_encr.Request.Eof.{
  find_and_store_header_end, method_of, store_method, parse_method_within, parse_and_store_method,
  eof_of_method, eof,
}
use apiserver_asymetric_encr.Request.Uri.{
  is_valid_path, parse_uri, parse_request_line_parts, parse_request_line,
}
use apiserver_asymetric_encr.Request.Headers.{
  is_valid_header_key, is_valid_header_value, parse_header_at, parse_header_line,
  parse_header_lines, parse_headers,
}
use apiserver_asymetric_encr.Request.Finalize.{
  finalize_body, check_method, headers_view, set_finalized, finalize_lines, finalize,
}
use apiserver_asymetric_encr.Request.Eof.{receive_bytes}
use apiserver_asymetric_encr.Reads.{read_bytes, read_blocks, handle_socket_read}
use apiserver_asymetric_encr.Connections.{
  ResponseItem, new_connection, new_worker, emplace_connection, close_connection, erase_connection,
  erase_node, find_node, move_to_end, find_connection, update_connection, touch_connection,
  accept_one,
}
use apiserver_asymetric_encr.Pool.{push, new_queue}
use apiserver_asymetric_encr.Server.{new_response}
use apiserver_asymetric_encr.Server.Authorize.{is_origin_allowed}
use apiserver_asymetric_encr.Server.Routing.{
  handle_internal_api, route_endpoint, route_parsed_request, process_request,
}
use apiserver_asymetric_encr.Server.Dispatch.{dispatch_to_worker}
use apiserver_asymetric_encr.Events.Loop.{new_io_worker, Runs, handles, starts, turns}
use apiserver_asymetric_encr.Events.Loop.Given.{queued, Runs-stale}
use apiserver_asymetric_encr.Connections.Writing.{deliver}
use apiserver_asymetric_encr.Events.{
  hang_up, IoWorker, EpollEvent, accepted, accept_blocks, Calls, on_connect, carry_out,
  process_request_of, read_done, on_read, handle_epoll_event,
}
use apiserver_asymetric_encr.Tests.Servers.{text, any_json, settings, made_request}
use apiserver_asymetric_encr.Events.Keeps.Handlers.{AreNew}
use apiserver_asymetric_encr.Tests.Loops.{queues, calls, emptied, own, arriving}

-- A client comes, sends its request and hangs up: its task waits, and the connection is gone.
abbrev first_come : Calls
first_come = record calls { accepts = accepted 9 (bytes "10.0.0.1") true ∷ accept_blocks ∷ [] }

abbrev request_sent : Calls
request_sent = record calls { reads = read_bytes text ∷ read_blocks ∷ [] }

abbrev hanging_up : EpollEvent
hanging_up = record {
  fd = 9;
  epollin = true;
  epollout = false;
  epollerr = true;
  epollrdhup = false;
}

abbrev come : IoWorker ℕ ℕ
come = record {
  worker = on_connect 7 first_come.accepts new_worker;
  queues = (new_io_worker {J = ℕ} {E = ℕ} 1000).queues;
}

abbrev gone : IoWorker ℕ ℕ
gone = record {
  worker = record {
    connections = [];
    timeout_list = [];
    next_connection_id = 1;
    next_node = 1;
    active_connections = 0;
  };
  queues = record queues {
    tasks = record queues.tasks {
      queue = record { fd = 9; connection_id = 1; req = made_request; endpoint = 7 } ∷ [];
    };
  };
}

client_comes :
    handle_epoll_event settings any_json emptied own 65536 30 arriving first_come
      (new_io_worker 1000)
    ≡ some come
unfolding handle_epoll_event new_io_worker
client_comes = refl

client_goes :
    handle_epoll_event settings any_json emptied own 65536 30 hanging_up request_sent come
    ≡ some gone
unfolding handle_epoll_event hang_up on_connect accept_one new_connection new_worker new_io_worker
    new_queue emplace_connection close_connection erase_connection on_read read_done
    process_request_of carry_out dispatch_to_worker push touch_connection move_to_end find_node
    erase_node find_connection update_connection handle_socket_read receive_bytes process_request
    route_parsed_request route_endpoint handle_internal_api new_response is_origin_allowed
    get_header_value make_request same starts_with ends_with find find_if find_last_if push_front
    split_from split trim_left trim_right trim_sv tolower sv_ci_equal sv_ci_hash_from sv_ci_hash
    take_digits from_chars_size new_buffer available_size view store resize update_pos same_method
    new_parser lookup_by emplace_by find_header emplace_header find_param emplace_param
    is_valid_path parse_uri parse_request_line_parts parse_request_line is_valid_header_key
    is_valid_header_value parse_header_at parse_header_line parse_header_lines parse_headers
    find_and_store_header_end method_of store_method parse_method_within parse_and_store_method
    eof_of_method eof finalize_body check_method headers_view set_finalized finalize_lines finalize
client_goes = refl

nine-AreNew : AreNew 7 first_come.accepts (new_io_worker {J = ℕ} {E = ℕ} 1000).worker
unfolding find_connection new_io_worker new_worker
nine-AreNew = (refl, omega arith, tt)

client_gone : Runs settings any_json emptied own 65536 30 1000 (record { io = gone; tasks = [] })
client_gone =
    turns (turns starts (handles _ arriving first_come come nine-AreNew client_comes))
      (handles _ hanging_up request_sent gone tt client_goes)

no_connection : find_connection 9 gone.worker.connections ≡ none
unfolding find_connection
no_connection = refl

Runs-stale_example :
    let it : ResponseItem = record { client_fd = 9; connection_id = 1; res = bytes "late" } in
    let v = accept_one 9 true 9 (bytes "10.0.0.3") gone.worker in
    (deliver true 9 [] it gone.worker ≡ gone.worker) × (deliver true 9 [] it v ≡ v)
Runs-stale_example =
    Runs-stale settings any_json emptied own 65536 30 client_gone (queued [] [] _ refl)
      no_connection (omega arith) true 9 [] (bytes "late") (bytes "10.0.0.3")
