-- ===== src/Endpoint/Read.antt =====
-- What the endpoint functions read of a value: `json_non_empty`, `json_string_list`,
-- `first_json_object`, `json_first_string`, `transport_host`, `transport_authority` and
-- `protocol_for_core_protocol`.
use entropy_vpn.Base.{
  ◌||◌, List, [], ◌∷◌, Option, none, some, Bytes, codes, String, if◌then◌else◌, is_empty, map,
}
use entropy_vpn.Json.Value.{Doubles, Json, array, is_object, list_of, elements, string_value}
use entropy_vpn.Share.Words.{is}
use entropy_vpn.Text.{trim}
use entropy_vpn.Tun.Fields.{get, trimmed_texts}

-- The first object of a list.
unfoldable pub first_object : {N : Type 0} → List (Json N) → Option (Json N)
first_object [] = none
first_object (v ∷ vs) = if is_object v then some v else first_object vs

unfoldable pub first_json_object : {N : Type 0} → Json N → Option (Json N)
unfolding first_object
first_json_object value = first_object (elements value)

abbrev pub or_text : Bytes → Bytes → Bytes
or_text text fallback = if is_empty text then fallback else text

abbrev pub or_texts : List Bytes → List Bytes → List Bytes
or_texts texts fallback = if is_empty texts then fallback else texts

abbrev pub front_or_empty : List Bytes → Bytes
front_or_empty [] = []
front_or_empty (v ∷ vs) = v

module _ {N : Type 0} (D : Doubles N) where
  unfoldable pub json_non_empty : Json N → Bytes
  json_non_empty value = trim (string_value D value)

  unfoldable pub json_string_list : Json N → List Bytes
  json_string_list (array vs) = trimmed_texts (map (string_value D) (list_of vs))
  json_string_list value = trimmed_texts (string_value D value ∷ [])

  unfoldable pub json_first_string : Json N → List String → Bytes
  unfolding json_non_empty
  json_first_string j [] = []
  json_first_string j (key ∷ keys) = or_text (json_non_empty (get j key)) (json_first_string j keys)

  unfoldable pub transport_host : Json N → Bytes
  unfolding json_non_empty json_string_list
  transport_host transport =
      let headers = get transport "headers" in
      or_text (json_non_empty (get transport "host")) (
        or_text (json_non_empty (get transport "Host")) (
          or_text (front_or_empty (json_string_list (get headers "Host")))
            (json_non_empty (get headers "host"))))

  unfoldable pub transport_authority : Json N → Bytes
  unfolding json_non_empty
  transport_authority transport =
      let headers = get transport "headers" in
      or_text (json_non_empty (get transport "authority")) (
        or_text (json_non_empty (get headers ":authority"))
          (json_non_empty (get headers "authority")))

unfoldable pub protocol_for_core_protocol : Bytes → Bytes
protocol_for_core_protocol protocol =
    if is protocol "vmess"
      || is protocol "trojan"
      || is protocol "shadowsocks"
      || is protocol "hysteria"
      || is protocol "hysteria2"
    then protocol
    else codes "vless"

-- The name of the program for the name of a transport in a configuration.
unfoldable pub core_transport : Bytes → Bytes
core_transport network =
    if is network "ws" || is network "websocket"
    then codes "ws"
    else if is network "grpc"
    then codes "grpc"
    else if is network "http"
    then codes "http"
    else if is network "httpupgrade" || is network "http-upgrade"
    then codes "httpUpgrade"
    else if is network "quic"
    then codes "quic"
    else if is network "xhttp" || is network "splithttp" || is network "split-http"
    then codes "xhttp"
    else codes "raw"
