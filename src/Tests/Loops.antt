-- ===== src/Tests/Loops.antt =====
-- Runs of the theorems on the event loop of src/server.cpp.
use apiserver_asymetric_encr.Base.{
  ◌==◌, ==_iff, Bool-cases, length, ℕ, ◌≤◌, ◌≡◌, refl, sym, ap, subst, ◌↔◌, ◌⊎◌, inl, inr, true,
  false, none, some, [], ◌∷◌, ◌++◌, arith,
}
use apiserver_asymetric_encr.Text.{
  bytes, zeros, same, starts_with, ends_with, find, find_if, find_last_if, push_front, split_from,
  split, trim_left, trim_right, trim_sv, tolower, sv_ci_equal, sv_ci_hash_from, sv_ci_hash,
  take_digits, from_chars_size,
}
use apiserver_asymetric_encr.Request.Buffer.{
  new_buffer, available_size, view, store, resize, update_pos,
}
use apiserver_asymetric_encr.Request.Model.{
  get, same_method, Parser, new_parser, lookup_by, emplace_by, find_header, emplace_header,
  find_param, emplace_param,
}
use apiserver_asymetric_encr.Request.Access.{make_request, get_header_value}
use apiserver_asymetric_encr.Request.Eof.{
  find_and_store_header_end, method_of, store_method, parse_method_within, parse_and_store_method,
  eof_of_method, eof,
}
use apiserver_asymetric_encr.Request.Uri.{
  is_valid_path, parse_uri, parse_request_line_parts, parse_request_line,
}
use apiserver_asymetric_encr.Request.Headers.{
  is_valid_header_key, is_valid_header_value, parse_header_at, parse_header_line,
  parse_header_lines, parse_headers,
}
use apiserver_asymetric_encr.Request.Finalize.{
  finalize_body, check_method, headers_view, set_finalized, finalize_lines, finalize,
}
use apiserver_asymetric_encr.Request.Finalize.Result.{IsUnparsed}
use apiserver_asymetric_encr.Reads.{stays, handle_socket_read}
use apiserver_asymetric_encr.Connections.{
  Connection, erase_node, find_node, move_to_end, find_connection, update_connection,
  touch_connection, accept_one, check_timeouts,
}
use apiserver_asymetric_encr.Pool.{push}
use apiserver_asymetric_encr.Server.{new_response}
use apiserver_asymetric_encr.Server.Authorize.{is_origin_allowed}
use apiserver_asymetric_encr.Server.Routing.{
  handle_internal_api, route_endpoint, route_parsed_request, process_request,
}
use apiserver_asymetric_encr.Server.Dispatch.{Queues, dispatch_to_worker}
use apiserver_asymetric_encr.Events.{
  IoWorker, OwnFds, EpollEvent, accepted, accept_blocks, Calls, on_connect, carry_out,
  process_request_of, read_done, on_read, handle_epoll_event,
}
use apiserver_asymetric_encr.Events.Keeps.{handle_epoll_event-Succeeds}
use apiserver_asymetric_encr.Events.Shutdown.{interrupted, Round, drain_pending_responses}
use apiserver_asymetric_encr.Events.Shutdown.Ends.{EndsEmpty, drain_pending_responses_ends}
use apiserver_asymetric_encr.Events.Serving.{Served, on_read_serves}
use apiserver_asymetric_encr.Tests.Servers.{text, read_request, any_json, settings, made_request}
use apiserver_asymetric_encr.Connections.Order.{MayStay}
use apiserver_asymetric_encr.Connections.Listed.{IsListed}
use apiserver_asymetric_encr.Connections.Listed.Timer.{check_timeouts_all}
use apiserver_asymetric_encr.Events.Listed.{handle_epoll_event-IsListed}
use apiserver_asymetric_encr.Events.Keeps.Handlers.{IsReady, Succeeds, AreNew}

-- A connection whose request has been read, with room in the buffer.
abbrev with_room : Parser ℕ
with_room = record read_request {
  buffer = record { buffer = text ++ zeros 8; filled = length text };
}

with_room-IsUnparsed : IsUnparsed with_room
unfolding view
with_room-IsUnparsed = record {
  fresh = record { no_method = refl; no_header = refl };
  no_headers = refl;
  no_files = refl;
  no_length = refl;
  open_state = refl;
  small = omega arith;
}

abbrev client : Connection ℕ
client = record {
  parser = with_room;
  response = none;
  remote_ip = bytes "10.0.0.1";
  last_activity = 5;
  connection_id = 1;
  timeout_it = 0;
  close_after_write = false;
  is_processing = false;
}

abbrev pub queues : Queues ℕ ℕ
queues = record {
  tasks = record { queue = []; stopped = false; capacity = 1000 };
  responses = record { queue = []; stopped = false; capacity = 0 };
}

abbrev one_client : IoWorker ℕ ℕ
one_client = record {
  worker = record {
    connections = (9, client) ∷ [];
    timeout_list = record { node_id = 0; fd = 9 } ∷ [];
    next_connection_id = 1;
    next_node = 1;
    active_connections = 1;
  };
  queues = queues;
}

abbrev pub calls : Calls
calls = record {
  now = 7;
  accepts = [];
  timer_read = true;
  reads = [];
  read_armed = true;
  writes = [];
  write_armed = true;
  batch = [];
  date = λ a. bytes "Thu, 1 Jan 1970 00:00:00 GMT";
}

abbrev pub emptied : Parser ℕ → Parser ℕ
emptied p = record p { headers = []; params = []; path = [] }

client_reads : handle_socket_read 65536 [] with_room ≡ stays with_room false
unfolding handle_socket_read available_size
client_reads = refl

abbrev served : Parser ℕ
served = record with_room { identified_header_size = some 28; identified_method = some get }

abbrev after_read : IoWorker ℕ ℕ
after_read = record {
  worker = record one_client.worker {
    connections =
        (9, record client { parser = emptied served; last_activity = 7; is_processing = true })
        ∷ [];
  };
  queues = record queues {
    tasks = record queues.tasks {
      queue = record { fd = 9; connection_id = 1; req = made_request; endpoint = 7 } ∷ [];
    };
  };
}

client_served : on_read settings any_json emptied 65536 9 calls one_client ≡ some after_read
unfolding on_read read_done process_request_of carry_out dispatch_to_worker push touch_connection
    move_to_end find_node erase_node find_connection update_connection handle_socket_read
    process_request route_parsed_request route_endpoint handle_internal_api new_response
    is_origin_allowed get_header_value make_request same starts_with ends_with find find_if
    find_last_if push_front split_from split trim_left trim_right trim_sv tolower sv_ci_equal
    sv_ci_hash_from sv_ci_hash take_digits from_chars_size new_buffer available_size view store
    resize update_pos same_method new_parser lookup_by emplace_by find_header emplace_header
    find_param emplace_param is_valid_path parse_uri parse_request_line_parts parse_request_line
    is_valid_header_key is_valid_header_value parse_header_at parse_header_line parse_header_lines
    parse_headers find_and_store_header_end method_of store_method parse_method_within
    parse_and_store_method eof_of_method eof finalize_body check_method headers_view set_finalized
    finalize_lines finalize
client_served = refl

client_found : find_connection 9 one_client.worker.connections ≡ some client
unfolding find_connection
client_found = refl

on_read_serves_example :
    (after_read.queues.tasks ≡ one_client.queues.tasks)
    ⊎ Served settings any_json emptied 9 client with_room one_client after_read
on_read_serves_example =
    on_read_serves settings any_json emptied 65536 9 calls with_room false client one_client
      after_read client_found client_reads with_room-IsUnparsed refl client_served

one_client-IsReady : IsReady one_client
unfolding find_connection
one_client-IsReady = (
  record {
    counted = omega arith;
    numbered = (omega arith, tt);
    in_range = omega arith;
    distinct = (refl, tt);
  },
  refl,
)

abbrev pub own : OwnFds
own = record { listening_fd = 3; timer_fd = 4; event_fd = 5 }

abbrev accepting : Calls
accepting = record calls { accepts = accepted 10 (bytes "10.0.0.2") true ∷ accept_blocks ∷ [] }

abbrev pub arriving : EpollEvent
arriving = record { fd = 3; epollin = true; epollout = false; epollerr = false; epollrdhup = false }

ten-AreNew : AreNew 7 accepting.accepts one_client.worker
unfolding find_connection
ten-AreNew = (refl, omega arith, tt)

handle_epoll_event-Succeeds_example :
    Succeeds
      (handle_epoll_event settings any_json emptied own 65536 30 arriving accepting one_client)
handle_epoll_event-Succeeds_example =
    handle_epoll_event-Succeeds settings any_json emptied own 65536 30 arriving accepting one_client
      ten-AreNew one_client-IsReady

-- A task of the client is done between two checks.
abbrev busy_round : Round
busy_round = record {
  before = [];
  unfinished = 1;
  after =
      record {
        client_fd = 9;
        connection_id = 1;
        res = record { origin = none; status = none; content = none };
      }
      ∷ [];
  calls = calls;
  waited = interrupted;
}

abbrev quiet_round : Round
quiet_round = record {
  before = [];
  unfinished = 0;
  after = [];
  calls = calls;
  waited = interrupted;
}

drain_pending_responses_ends_example :
    EndsEmpty (drain_pending_responses own (busy_round ∷ quiet_round ∷ []) one_client)
drain_pending_responses_ends_example =
    drain_pending_responses_ends own [] busy_round quiet_round [] one_client (tt, tt) refl refl
      one_client-IsReady

only_client :
    (fd : ℕ) (c : Connection ℕ)
    → find_connection fd one_client.worker.connections ≡ some c
    → (fd ≡ 9) × (client ≡ c)
unfolding find_connection
only_client fd c e = elim (Bool-cases (9 == fd)) [
  | inl here ↦ (sym ((==_iff 9 fd).0 here), ground arith)
  | inr other ↦ absurd (ground arith)
]

one_client-IsListed : IsListed 5 one_client.worker
unfolding find_connection find_node
one_client-IsListed = record {
  distinct = (refl, tt);
  ids = (tt, tt);
  below = (omega arith, tt);
  linked = ((client, refl, refl), tt);
  has_node = λ fd c e.
      let (here, it_is) = only_client fd c e in
      (
        record { node_id = 0; fd = 9 },
        ap (λ x. find_node x.timeout_it one_client.worker.timeout_list) (sym it_is),
        sym here,
      );
  sorted = (tt, tt);
  past = λ fd c e. subst (λ x. x.last_activity ≤ 5) (only_client fd c e).1 (omega arith);
}

-- Forty ticks after its last activity.
check_timeouts_all_example :
    (find_connection 9 (check_timeouts 30 45 one_client.worker).connections ≡ some client)
    ↔ ((find_connection 9 one_client.worker.connections ≡ some client) × MayStay 30 45 client)
check_timeouts_all_example =
    check_timeouts_all 5 30 45 9 one_client.worker client one_client-IsListed

abbrev two_clients : IoWorker ℕ ℕ
two_clients = record one_client {
  worker = accept_one 7 true 10 (bytes "10.0.0.2") one_client.worker;
}

second_accepted :
    handle_epoll_event settings any_json emptied own 65536 30 arriving accepting one_client
    ≡ some two_clients
unfolding handle_epoll_event on_connect
second_accepted = refl

handle_epoll_event-IsListed_example : IsListed 7 two_clients.worker
handle_epoll_event-IsListed_example =
    handle_epoll_event-IsListed settings any_json emptied 5 own 65536 30 arriving accepting
      one_client two_clients (omega arith) ten-AreNew (refl, tt) one_client-IsListed second_accepted
