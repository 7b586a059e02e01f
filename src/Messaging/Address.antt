-- ===== src/Messaging/Address.antt =====
-- src/messaging/queue_client.cpp: which broker addresses are taken.
use live_trading_engine.Common.{
  ℕ, ◌+◌, Bool, true, false, not, ◌&&◌, ◌||◌, leb, ◌==◌, Option, none, some, List, [], ◌∷◌, ◌++◌,
  if◌then◌else◌, Text, text_eq, codes,
}
use live_trading_engine.Common.Int.{ℤ, pos, negsuc}
use live_trading_engine.Common.Numbers.{stoi}
use live_trading_engine.Common.Streams.{getlines, split_at}

abbrev pub is_blank : ℕ → Bool
is_blank c = c == 32 || c == 9

unfoldable pub trim_front : Text → Text
trim_front [] = []
trim_front (c ∷ cs) = if is_blank c then trim_front cs else c ∷ cs

-- Without the blanks at its end.
unfoldable pub trim_back : Text → Text
trim_back [] = []
trim_back (c ∷ cs) = elim (trim_back cs) [
  | [] ↦ if is_blank c then [] else c ∷ []
  | d ∷ ds ↦ c ∷ d ∷ ds
]

-- A number up to `bound` that stoi reads.
abbrev pub is_upto : ℕ → ℕ → Option ℤ → Bool
is_upto least bound none = false
is_upto least bound (some (negsuc n)) = false
is_upto least bound (some (pos n)) = leb least n && leb n bound

unfoldable pub has_leading_zero : Text → Bool
has_leading_zero (c ∷ d ∷ t) = c == b'0'
has_leading_zero t = false

unfoldable pub is_segment : Text → Bool
unfolding has_leading_zero
is_segment segment = is_upto 0 255 (stoi segment) && not (has_leading_zero segment)

-- The loop over the segments, `n` of which were read.
unfoldable pub check_segments : ℕ → List Text → Bool
check_segments n [] = n == 4
check_segments n (segment ∷ rest) =
    let later = check_segments (n + 1) rest in
    if leb 4 n then false else if is_segment segment then later else false

unfoldable pub is_valid_ip_address : Text → Bool
unfolding check_segments
is_valid_ip_address ip = check_segments 0 (getlines b'.' ip)

-- The error that is logged for a host and a port, given what stoi reads of the port; `none` if both
-- are good.
unfoldable pub check_port : Text → Text → Option ℤ → Option Text
check_port host port none = some (codes "Invalid port number: " ++ port)
check_port host port (some n) =
    if not (is_upto 1 65_535 (some n))
    then some (codes "Invalid port number: " ++ (port ++ codes ". Must be between 1 and 65535"))
    else if not (text_eq host (codes "localhost")) && not (is_valid_ip_address host)
    then some
        (codes "Invalid host: " ++ (host ++ codes ". Must be 'localhost' or valid IP address"))
    else none

unfoldable pub check_host_port : Text → Text → Option Text
unfolding check_port
check_host_port host port = check_port host port (stoi port)

abbrev bad_format : Text → Option Text
bad_format broker =
    some (codes "Invalid broker format: " ++ (broker ++ codes ". Expected host:port"))

-- What stands before and behind the first colon of a broker: neither may be empty.
unfoldable pub check_parts : Text → Option (Text × Text) → Option Text
check_parts broker none = bad_format broker
check_parts broker (some ([], port)) = bad_format broker
check_parts broker (some (h ∷ host, [])) = bad_format broker
check_parts broker (some (h ∷ host, p ∷ port)) = check_host_port (h ∷ host) (p ∷ port)

-- A broker without its blanks.
unfoldable pub check_broker : Text → Option Text
unfolding check_parts
check_broker broker = check_parts broker (split_at b':' broker)

abbrev pub first_error : Option Text → Option Text → Option Text
first_error (some e) later = some e
first_error none later = later

unfoldable pub check_brokers : List Text → Bool → Option Text
check_brokers [] valid = if valid then none else some (codes "No valid broker addresses found")
check_brokers (broker ∷ rest) valid =
    first_error (check_broker (trim_back (trim_front broker))) (check_brokers rest true)

-- The error that is logged; `none` if the addresses are valid.
unfoldable pub validate_broker_address : Text → Option Text
unfolding check_brokers
validate_broker_address [] = some (codes "No broker address provided")
validate_broker_address (c ∷ cs) = check_brokers (getlines b',' (c ∷ cs)) false
