-- ===== src/Ping.antt =====
-- TCP latency: `tcp_ping_targets_from_json` and `measure_tcp_pings_json` of
-- native/share_link_parser.cpp. `connect` stands for `tcp_connect_latency_ms` and the sockets.
pub mod Workers
pub mod Runs
pub mod Output
use entropy_vpn.Base.{
  ℕ, Bool, true, false, not, ◌&&◌, List, [], ◌∷◌, ◌++◌, Option, none, some, Bytes, codes,
  if◌then◌else◌, is_empty, is_positive, map, ℤ, pos, negsuc, leb, ◌==◌, length,
}
use entropy_vpn.Json.Parser.{parse}
use entropy_vpn.Json.Rows.{Field, string_field, int_field, write_object}
use entropy_vpn.Json.Value.{Doubles, Json, is_object, is_array, elements, string_value, int_value}
use entropy_vpn.Result.{Result, ok, err, ◌>>=◌}
use entropy_vpn.Share.Extract.{array_text}
use entropy_vpn.Text.{trim}
use entropy_vpn.Tun.Fields.{get}

pub record TcpPingTarget : Type 0 where
  pub profile_index : ℤ
  pub profile_key : Bytes
  pub host : Bytes
  pub port : ℤ

pub record TcpPingResult : Type 0 where
  pub is_ok : Bool
  pub profile_index : ℤ
  pub profile_key : Bytes
  pub latency_ms : ℤ

-- The initializers of the fields.
abbrev pub new_result : TcpPingResult
new_result = record { is_ok = false; profile_index = pos 0; profile_key = []; latency_ms = pos 0 }

-- At most the second number.
abbrev pub int_leb : ℤ → ℕ → Bool
int_leb (pos n) m = leb n m
int_leb (negsuc n) m = true

unfoldable pub can_ping : TcpPingTarget → Bool
can_ping target = not (is_empty target.host) && is_positive target.port && int_leb target.port 65535

module _ {N : Type 0} (D : Doubles N) where
  target_of : Json N → TcpPingTarget
  target_of item = record {
    profile_index = int_value D (get item "profileIndex");
    profile_key = string_value D (get item "profileKey");
    host = trim (string_value D (get item "host"));
    port = int_value D (get item "port");
  }

  unfoldable pub targets_of : List (Json N) → List TcpPingTarget
  unfolding target_of can_ping
  targets_of [] = []
  targets_of (item ∷ items) =
      let later = targets_of items in
      if is_object item && can_ping (target_of item) then target_of item ∷ later else later

  unfoldable pub tcp_ping_targets_from_json : Bytes → Result (List TcpPingTarget)
  unfolding targets_of
  tcp_ping_targets_from_json targets_json = do
    root ← parse D targets_json
    if is_array root
        then ok (targets_of (elements root))
        else err (codes "TCP ping targets must be a JSON array.")

-- `timeout_ms` and `max_concurrent`, as they are used.
unfoldable pub used_timeout : ℤ → ℤ
used_timeout timeout_ms = if is_positive timeout_ms then timeout_ms else pos 1

unfoldable pub used_concurrent : ℤ → ℕ
used_concurrent (pos n) = if n == 0 then 1 else if leb n 64 then n else 64
used_concurrent (negsuc n) = 1

-- The threads that are started.
unfoldable pub worker_count : ℤ → List TcpPingTarget → ℕ
unfolding used_concurrent
worker_count max_concurrent targets =
    let most = used_concurrent max_concurrent in
    if leb (length targets) most then length targets else most

-- What a worker stores for a target; no latency stands for an exception of the connection.
unfoldable pub result_of : TcpPingTarget → Option ℤ → TcpPingResult
result_of target none = record new_result {
  profile_index = target.profile_index;
  profile_key = target.profile_key;
}
result_of target (some latency) = record {
  is_ok = true;
  profile_index = target.profile_index;
  profile_key = target.profile_key;
  latency_ms = latency;
}

unfoldable pub result_rows : List TcpPingResult → List Bytes
result_rows [] = []
result_rows (r ∷ results) =
    let later = result_rows results in
    let row = write_object (
      (codes "profileIndex", int_field r.profile_index false)
      ∷ (codes "profileKey", string_field r.profile_key)
      ∷ (codes "latencyMs", int_field r.latency_ms false)
      ∷ []) in
    if r.is_ok then row ∷ later else later

-- The text for the results that the workers leave.
unfoldable pub write_results : List TcpPingResult → Bytes
unfolding result_rows
write_results results = array_text (result_rows results)
