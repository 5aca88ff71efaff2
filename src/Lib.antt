-- ===== src/Lib.antt =====
-- EntropyVPN: the native library that reads connection links, keeps profiles and builds the
-- configurations of the cores.
--
-- The library native/share_link_parser.cpp turns a connection link into a `Profile`, writes the
-- profile as a JSON object for the application, reads it back from there, and builds the
-- configuration of sing-box or Xray for it. The parts, from the
-- bottom up, with the functions of that file that they model:
--   Base, Result      the shared notation, byte strings, and values or error messages: a C++
--                     exception is `err` with the text of its message
--   Text              `trim`, `lower`, `split_list`, `first_non_empty_line`,
--                     `without_utf8_bom_markers`, and the searches of std::string
--   Number            `parse_int`, and what a stream writes for an int
--   Base64            `base64_decode`, `try_decode_subscription_base64_text`
--   Uri               `url_decode` (Uri.Decode), `parse_query`, `query_value` and
--                     `first_query_value` (Uri.Query), the endpoint and its ports
--                     (Uri.Authority), `parse_uri`
--   Json              `json_escape_to` (Json.Escape), `add_string`, `add_int`, `add_bool`,
--                     `add_string_array` (Json.Writer), the readers of single fields
--                     `json_string_value`, `json_bool_value`, `json_string_array_value`
--                     (Json.Fields), and objects as lists of fields (Json.Rows)
--   Profile           `Profile`, `to_json`, `profile_from_json`
--   Share             `parse_transport` and the other word tables (Share.Words), the parsers of
--                     the protocols (Share.Vless, Share.Vmess, Share.Shadowsocks,
--                     Share.Hysteria), and `parse_profile` (Share.Dispatch)
--
-- A text is a list of natural numbers, one for each byte; `AreBytes` says that all are below 256,
-- where a theorem needs it. An `int` is an integer, and `IsInt` gives its range. A `std::map` of
-- the query is an association list that a write updates in place. The tests of <cctype> are those
-- of the C locale, and `strtol` and `std::from_chars` are written out as the C and C++ standards
-- document them.
--
-- Bounds. The padding loop of Base64 runs three rounds, which fill every group of four. The reader
-- of JSON arrays runs on the length of the text as its fuel: an item takes a character at least.
-- The Base64 register keeps 32 bits.
-- Writing a number runs on its value and one; each round takes a digit off.
--
-- On top of these stand the parts that serve the cores:
--   Share.Extract     `extract_share_links`, `parse_share_links_json`
--   Config            `ConfigOptions` (Config.Options), the DNS servers (Config.Dns), matchers and
--                     route rules of sing-box (Config.Matchers, Config.Routes), the outbounds of
--                     sing-box and Xray (Config.SingBox, Config.Xray) and the whole
--                     configuration of Xray (Config.XrayConfig), all over pieces of JSON text
--                     (Config.Fragments); Config.Fragments.WellFormed has the grammar of JSON that
--                     their texts are held against, with the strings and numbers of RFC 8259 in
--                     Config.Fragments.Grammar. The loop of `trim_share_link` runs on the
--                     length of the line, since each round takes a byte off.
--   Json.Value        the general `Json` value and what its members read and change; Json.Parser is
--                     `JsonParser`, Json.Serialize is `serialize_json`
--   Tun               the changes to a sing-box configuration that a profile carries: addresses
--                     (Tun.Fields), inbounds and their tags (Tun.Inbounds), what a route rule is
--                     (Tun.Rules), `apply_native_sing_box_tun_settings` (Tun.Apply)
--   Config.SingBoxConfig  `build_sing_box_config` and `build_core_config`, which picks the core
--   Endpoint          the server data out of a configuration: what is read (Endpoint.Read), the
--                     scores (Endpoint.Scores), the endpoints of Xray and sing-box
--                     (Endpoint.Xray, Endpoint.SingBox), the search through groups of outbounds
--                     (Endpoint.Resolve), `core_config_profile_json` (Endpoint.Profile)
--   Ping              `tcp_ping_targets_from_json` and the text of the results; the threads of
--                     `measure_tcp_pings_json` are a pool that takes steps in any order
--                     (Ping.Workers, Ping.Runs, Ping.Output)
--   Service.Versions  `CompareVersions` of windows/runner/entropy_vpn_service_manifest.cpp
--   Api               the exported functions, which turn an exception into a message
--
-- The loop of `CompareVersions` runs on the length of the two texts: each round but the last takes a
-- dot off one of them.
--
-- A `double` is an abstract type, and the record `Doubles` has what the code does with it: strtod,
-- the conversions from and to integers, the stream. The connection to a target is a function from
-- its index to a latency or none. The parser runs on twice the length of the text and one; each
-- value takes a byte at least. `resolve_sing_box_outbound` runs on the number of tagged outbounds
-- and two; each call that goes on takes a new tag of them.
--
-- Not modelled: the connection of the TCP latency measurement (socket I/O), the memory that the
-- exported functions hand over, and the Windows and Linux runners but for the comparison of
-- versions: most of their code calls the operating system. Of the Windows service, the parsing of
-- requests and of the release manifest is not modelled.
pub mod Base
pub mod Result
pub mod Text
pub mod Base64
pub mod Number
pub mod Uri
pub mod Json
pub mod Profile
pub mod Share
pub mod Config
pub mod Tun
pub mod Endpoint
pub mod Ping
pub mod Api
pub mod Service
pub mod Tests
