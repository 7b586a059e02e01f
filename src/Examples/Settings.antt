-- ===== src/Examples/Settings.antt =====
-- Settings and broker addresses.
use live_trading_engine.Common.{
  ◌≡◌, ◌≢◌, ◌↔◌, refl, true, none, List, [], ◌∷◌, All, Text, codes, arith, decimal,
}
use live_trading_engine.Common.Int.{negsuc}
use live_trading_engine.Common.Numbers.{stoi, read_number, read_digits}
use live_trading_engine.Common.Streams.{getlines, skip_spaces, is_space, is_digit}
use live_trading_engine.Config.{
  value, new_config, get_string, get_int, get_bool, set_string, set_int, set_bool,
}
use live_trading_engine.Config.Typed.{Same, setters_lem}
use live_trading_engine.Messaging.Address.{is_segment, is_valid_ip_address, validate_broker_address}
use live_trading_engine.Messaging.Printed.{Address, localhost, dotted, brokers_text}
use live_trading_engine.Messaging.Hosts.{GoodAddress}
use live_trading_engine.Messaging.Brokers.{validate_broker_address_iff}

abbrev port_key : Text
port_key = codes "port"

setters_lem_example :
    (get_string (set_string new_config port_key (codes "8080")) port_key ≡ value (codes "8080"))
    × (get_int (set_int new_config port_key (negsuc 7)) port_key ≡ value (negsuc 7))
    × (get_bool (set_bool new_config port_key true) port_key ≡ value true)
    × ((j : Text)
        → j ≢ port_key
        → Same new_config (set_string new_config port_key (codes "8080")) j)
    × ((j : Text) → j ≢ port_key → Same new_config (set_int new_config port_key (negsuc 7)) j)
    × ((j : Text) → j ≢ port_key → Same new_config (set_bool new_config port_key true) j)
setters_lem_example = setters_lem new_config port_key (codes "8080") (negsuc 7) true (omega arith)

abbrev two_brokers : List Address
two_brokers =
    record { host = localhost; port = 9092 }
    ∷ record { host = dotted (10 ∷ 0 ∷ 0 ∷ 255 ∷ []); port = 1 }
    ∷ []

two_brokers_text : brokers_text two_brokers ≡ codes "localhost:9092,10.0.0.255:1"
unfolding brokers_text decimal
two_brokers_text = refl

validate_broker_address_iff_example :
    (validate_broker_address (brokers_text two_brokers) ≡ none)
    ↔ ((two_brokers ≢ []) × All GoodAddress two_brokers)
validate_broker_address_iff_example = validate_broker_address_iff two_brokers

-- A dot at the end starts no segment, and what follows a number is not looked at.
trailing_dot : is_valid_ip_address (codes "1.2.3.4.") ≡ true
unfolding is_valid_ip_address is_segment getlines stoi skip_spaces is_space read_number is_digit
    read_digits
trailing_dot = refl

trailing_letters : is_valid_ip_address (codes "1.2.3.4x") ≡ true
unfolding is_valid_ip_address is_segment getlines stoi skip_spaces is_space read_number is_digit
    read_digits
trailing_letters = refl
