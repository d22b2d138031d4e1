-- ===== src/Server.antt =====
-- The request path of `server::io_worker` (src/server.cpp): from a request to its response.
-- A response is what the handlers set (src/http_response.hpp): `Response` keeps the arguments of the
-- setter that was called first; the text that the setter formats from them is in Server.Message.
-- Log lines and metrics are left out.
pub mod Authorize
pub mod Handler
pub mod Routing
pub mod Dispatch
pub mod Message
use apiserver_asymetric_encr.Base.{if◌then◌else◌, is_some, is_empty, Bool, Option, none, some}
use apiserver_asymetric_encr.Text.{Bytes, bytes}

pub data Status : Type 0 where
  ok no_content bad_request unauthorized forbidden not_found entity_too_large : Status
  internal_server_error service_unavailable : Status

-- What a response holds once a setter has been called.
pub data Content : Type 0 where
  body : Status → Bytes → Bytes → Content
  blob : Bytes → Bytes → Bytes → Content
  no_body : Content

pub record Response : Type 0 where
  pub origin : Option Bytes
  pub status : Option Status
  pub content : Option Content

-- An empty Origin counts as none.
unfoldable pub new_response : Option Bytes → Response
new_response origin = record {
  origin = elim origin [ none ↦ none | some o ↦ if is_empty o then none else some o ];
  status = none;
  content = none;
}

abbrev pub is_finalized : Response → Bool
is_finalized r = is_some r.content

unfoldable pub set_body : Status → Bytes → Bytes → Response → Response
set_body s content_type text r =
    if is_finalized r
    then r
    else record r { status = some s; content = some (body s content_type text) }

unfoldable pub set_blob : Bytes → Bytes → Bytes → Response → Response
set_blob data_ content_type disposition r =
    if is_finalized r then r else record r { content = some (blob data_ content_type disposition) }

unfoldable pub set_options : Response → Response
set_options r = if is_finalized r then r else record r { content = some no_body }

-- The default content type.
abbrev pub json_type : Bytes
json_type = bytes "application/json; charset=utf-8"

abbrev pub set_json : Status → Bytes → Response → Response
set_json s text r = set_body s json_type text r
