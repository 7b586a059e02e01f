-- ===== src/Http/Message.antt =====
-- include/trading/network/http_server.hpp: requests and responses, and the text of a response as
-- src/network/http_server.cpp sends it.
use live_trading_engine.Common.{
  ℕ, ◌==◌, none, some, [], ◌∷◌, ◌++◌, if◌then◌else◌, Text, codes, decimal, length,
}
use live_trading_engine.Common.Dict.{Dict, lookup, insert}

pub record HttpRequest : Type 0 where
  pub method : Text
  pub path : Text
  pub body : Text
  pub headers : Dict Text
  pub path_params : Dict Text
  pub query_params : Dict Text

pub record HttpResponse : Type 0 where
  pub status_code : ℕ
  pub body : Text
  pub headers : Dict Text

abbrev pub crlf : Text
crlf = 13 ∷ 10 ∷ []

unfoldable pub reason_phrase : ℕ → Text
reason_phrase status =
    if status == 200
    then codes "OK"
    else if status == 201
    then codes "Created"
    else if status == 202
    then codes "Accepted"
    else if status == 400
    then codes "Bad Request"
    else if status == 404
    then codes "Not Found"
    else if status == 500
    then codes "Internal Server Error"
    else codes "OK"

-- HttpServer::createErrorResponse; the message is not escaped.
unfoldable pub error_response : ℕ → Text → HttpResponse
error_response status_code message = record {
  status_code = status_code;
  body = codes "{\"error\": \"" ++ (message ++ codes "\"}");
  headers = (codes "Content-Type", codes "application/json") ∷ [];
}

unfoldable pub with_content_type : HttpResponse → HttpResponse
with_content_type r = elim (lookup (codes "Content-Type") r.headers) [
  | none ↦ record r { headers = insert (codes "Content-Type") (codes "application/json") r.headers }
  | some t ↦ r
]

unfoldable pub header_lines : Dict Text → Text
header_lines [] = []
header_lines ((key, v) ∷ m) = key ++ (codes ": " ++ (v ++ (crlf ++ header_lines m)))

unfoldable pub response_text : HttpResponse → Text
unfolding reason_phrase header_lines
response_text r =
    codes "HTTP/1.1 "
    ++ (decimal r.status_code
        ++ (codes " "
            ++ (reason_phrase r.status_code
                ++ (crlf
                    ++ (codes "Content-Length: "
                        ++ (decimal (length r.body)
                            ++ (crlf ++ (header_lines r.headers ++ (crlf ++ r.body)))))))))
