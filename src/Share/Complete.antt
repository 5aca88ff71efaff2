-- ===== src/Share/Complete.antt =====
-- What every parsed profile has: a server, credentials, a transport and a TLS mode that the rest
-- of the program knows, and a port, but for VMess, whose port is not checked.
use entropy_vpn.Base.{
  ◌≤◌, ◌<◌, Bool, true, false, not, ◌&&◌, ◌||◌, List, [], ◌∷◌, ◌++◌, Option, none, some, Bytes,
  codes, if◌then◌else◌, is_empty, is_zero, is_positive, ℤ, pos, negsuc, int_max, Bool-cases, inl,
  inr, ◌⊎◌, ◌≡◌, ◌≢◌, refl, arith,
}
use entropy_vpn.Base64.{base64_decode}
use entropy_vpn.Json.Fields.{json_string_value}
use entropy_vpn.Profile.{Profile}
use entropy_vpn.Result.{Result, ok, err, throw_if, bind-eq-ok}
use entropy_vpn.Share.Dispatch.{parse_as, parse_with_scheme, parse_line, parse_profile}
use entropy_vpn.Share.Hysteria.{default_port, hysteria_profile, with_secret, parse_hysteria}
use entropy_vpn.Share.Shadowsocks.{parse_shadowsocks, split_main, split_credentials, with_plugin}
use entropy_vpn.Share.Vless.{vless_profile, parse_vless_or_trojan}
use entropy_vpn.Share.Vmess.{vmess_profile, vmess_tls, parse_vmess}
use entropy_vpn.Share.Words.{is, transport_of, parse_transport, parse_tls_mode}
use entropy_vpn.Text.{cut_first, cut_seq, lower, first_non_empty_line}
use entropy_vpn.Uri.Query.{query_value}
use entropy_vpn.Uri.Authority.Ports.{IsPort}
use entropy_vpn.Uri.Ports.{parse_uri-UriHasPort}
use entropy_vpn.Uri.{ParsedUri, parse_uri}

-- The text is one of the list.
abbrev pub OneOf : Bytes → List Bytes → Type 0
OneOf s [] = ⊥
OneOf s (t ∷ ts) = (s ≡ t) ⊎ OneOf s ts

abbrev pub transports : List Bytes
transports =
    codes "raw"
    ∷ codes "ws"
    ∷ codes "grpc"
    ∷ codes "http"
    ∷ codes "httpUpgrade"
    ∷ codes "quic"
    ∷ codes "xhttp"
    ∷ []

abbrev pub tls_modes : List Bytes
tls_modes = codes "none" ∷ codes "tls" ∷ codes "reality" ∷ []

-- A port that a connection can use: from 1 on, within an `int`.
abbrev pub IsUsable : ℤ → Type 0
IsUsable (pos n) = (0 < n) × (n ≤ int_max)
IsUsable (negsuc n) = ⊥

-- What each protocol needs beside its server.
abbrev pub Credentials : Profile → Type 0
Credentials p =
    ((p.protocol ≡ codes "vless") × (p.user_id ≢ []) × IsUsable p.port)
    ⊎ ((p.protocol ≡ codes "trojan") × (p.password ≢ []) × IsUsable p.port)
    ⊎ ((p.protocol ≡ codes "vmess") × (p.user_id ≢ []))
    ⊎ ((p.protocol ≡ codes "shadowsocks") × (p.method ≢ []) × IsUsable p.port)
    ⊎ ((p.protocol ≡ codes "hysteria")
        × IsUsable p.port
        × (is_positive p.upload_mbps ≡ true)
        × (is_positive p.download_mbps ≡ true))
    ⊎ ((p.protocol ≡ codes "hysteria2") × IsUsable p.port)

pub record IsComplete (p : Profile) : Type 0 where
  pub server_ne_nil : p.server ≢ []
  pub transport_known : OneOf p.transport transports
  pub tls_known : OneOf p.tls_mode tls_modes
  pub credentials : Credentials p

-- A check that did not throw failed.
throw_if-eq-ok : (b : Bool) (m : Bytes) {u : Unit {0}} → throw_if b m ≡ ok u → b ≡ false
throw_if-eq-ok true m h = cc
throw_if-eq-ok false m h = refl

is_empty-false : (s : Bytes) → is_empty s ≡ false → s ≢ []
is_empty-false [] h = cc
is_empty-false (c ∷ s) h = cc

transport_of-OneOf : (v : Bytes) {t : Bytes} → transport_of v ≡ ok t → OneOf t transports
unfolding transport_of
transport_of-OneOf v h = ground arith

parse_transport-OneOf : (raw : Bytes) {t : Bytes} → parse_transport raw ≡ ok t → OneOf t transports
unfolding parse_transport
parse_transport-OneOf raw h = transport_of-OneOf _ h

parse_tls_mode-OneOf : (raw : Bytes) → OneOf (parse_tls_mode raw) tls_modes
unfolding parse_tls_mode
parse_tls_mode-OneOf raw = ground arith

vmess_tls-OneOf : (tls : Bytes) → OneOf (vmess_tls tls) tls_modes
unfolding vmess_tls
vmess_tls-OneOf tls = ground arith

IsUsable-intro : (i : ℤ) → IsPort i → is_zero i ≡ false → IsUsable i
IsUsable-intro (pos n) h z = ground arith
IsUsable-intro (negsuc n) h z = h

uri_port : (link : Bytes) {uri : ParsedUri} → parse_uri link ≡ ok uri → IsPort uri.port
uri_port link e = rw e at (parse_uri-UriHasPort link)

abbrev None3 : Bool → Bool → Bool → Type 0
None3 a b c = (a ≡ false) × (b ≡ false) × (c ≡ false)

none_of_3 : (a b c : Bool) → (a || b || c) ≡ false → None3 a b c
none_of_3 a b c h = ground arith

none_of_2 : (a b : Bool) → (a || b) ≡ false → (a ≡ false) × (b ≡ false)
none_of_2 a b h = ground arith

vless_profile-IsComplete :
    (trojan : Bool) (uri : ParsedUri) (t : Bytes)
    → None3 (is_empty uri.host) (is_zero uri.port) (is_empty uri.user_info)
    → IsPort uri.port
    → OneOf t transports
    → IsComplete (vless_profile trojan uri t)
unfolding vless_profile
vless_profile-IsComplete true uri t (host, port, user) h known = record {
  server_ne_nil = is_empty-false uri.host host;
  transport_known = known;
  tls_known = parse_tls_mode-OneOf _;
  credentials = inr (inl (refl, is_empty-false uri.user_info user, IsUsable-intro uri.port h port));
}
vless_profile-IsComplete false uri t (host, port, user) h known = record {
  server_ne_nil = is_empty-false uri.host host;
  transport_known = known;
  tls_known = parse_tls_mode-OneOf _;
  credentials = inl (refl, is_empty-false uri.user_info user, IsUsable-intro uri.port h port);
}

-- The value that `ok` holds.
ok-injective {ℓ} : {A : Type ℓ} {a b : A} → ok a ≡ ok b → a ≡ b
ok-injective h = cc

parse_vless_or_trojan-IsComplete :
    (link : Bytes) (trojan : Bool) {p : Profile}
    → parse_vless_or_trojan link trojan ≡ ok p
    → IsComplete p
unfolding parse_vless_or_trojan
parse_vless_or_trojan-IsComplete link trojan e =
    let (uri, parsed, e1) = bind-eq-ok (parse_uri link) _ e in
    let (_, checked, e2) =
      bind-eq-ok (throw_if (is_empty uri.host || is_zero uri.port || is_empty uri.user_info) _) _
        e1 in
    let (t, known, e3) = bind-eq-ok (parse_transport _) _ e2 in
    rw (← ok-injective e3) (
      vless_profile-IsComplete trojan uri t
        (none_of_3 (is_empty uri.host) (is_zero uri.port) (is_empty uri.user_info)
          (throw_if-eq-ok _ _ checked))
        (uri_port link parsed) (parse_transport-OneOf _ known))

parse_vmess-IsComplete : (link : Bytes) {p : Profile} → parse_vmess link ≡ ok p → IsComplete p
unfolding parse_vmess
parse_vmess-IsComplete link e =
    let (decoded, _, e1) = bind-eq-ok (base64_decode _) _ e in
    let (_, add, e2) =
      bind-eq-ok (throw_if (is_empty (json_string_value decoded (codes "add"))) _) _ e1 in
    let (_, port, e3) =
      bind-eq-ok (throw_if (is_empty (json_string_value decoded (codes "port"))) _) _ e2 in
    let (_, id, e4) =
      bind-eq-ok (throw_if (is_empty (json_string_value decoded (codes "id"))) _) _ e3 in
    let (t, known, e5) = bind-eq-ok (parse_transport _) _ e4 in
    rw (← ok-injective e5) (record {
      server_ne_nil = unfold vmess_profile in is_empty-false _ (throw_if-eq-ok _ _ add);
      transport_known = unfold vmess_profile in parse_transport-OneOf _ known;
      tls_known = unfold vmess_profile in vmess_tls-OneOf _;
      credentials =
          unfold vmess_profile in inr (inr (inl (refl, is_empty-false _ (throw_if-eq-ok _ _ id))));
    })

split_credentials-method :
    (cut : Option (Bytes × Bytes)) {s : Bytes × Bytes} → split_credentials cut ≡ ok s → s.0 ≢ []
unfolding split_credentials
split_credentials-method none e = cc
split_credentials-method (some ([], password)) e = cc
split_credentials-method (some (c ∷ method, password)) e = rw (← ok-injective e) (cc)

with_plugin-IsComplete :
    (parts : List Bytes) (p : Profile) → IsComplete p → IsComplete (with_plugin parts p)
unfolding with_plugin
with_plugin-IsComplete [] p h = h
with_plugin-IsComplete (name ∷ opts) p h = record {
  server_ne_nil = h.server_ne_nil;
  transport_known = h.transport_known;
  tls_known = h.tls_known;
  credentials = h.credentials;
}

parse_shadowsocks-IsComplete :
    (link : Bytes) {p : Profile} → parse_shadowsocks link ≡ ok p → IsComplete p
unfolding parse_shadowsocks
parse_shadowsocks-IsComplete link e =
    let (parts, _, e1) = bind-eq-ok (split_main _ _) _ e in
    let (secrets, split, e2) = bind-eq-ok (split_credentials (cut_first b':' parts.0)) _ e1 in
    let (uri, parsed, e3) = bind-eq-ok (parse_uri (codes "ss://placeholder@" ++ parts.1)) _ e2 in
    let (_, checked, e4) = bind-eq-ok (throw_if (is_empty uri.host || is_zero uri.port) _) _ e3 in
    let (host, port) =
      none_of_2 (is_empty uri.host) (is_zero uri.port) (throw_if-eq-ok _ _ checked) in
    rw (← ok-injective e4) (
      with_plugin-IsComplete _ _ (record {
        server_ne_nil = is_empty-false uri.host host;
        transport_known = inl refl;
        tls_known = inl refl;
        credentials = inr (
            inr (
              inr (
                inl (
                  refl,
                  split_credentials-method _ split,
                  IsUsable-intro uri.port (uri_port _ parsed) port,
                ))));
      }))

default_port-IsUsable :
    (version2 : Bool) (i : ℤ)
    → IsPort i
    → is_positive (default_port version2 i) ≡ true
    → IsUsable (default_port version2 i)
unfolding default_port
default_port-IsUsable version2 i h positive = elim (Bool-cases (version2 && is_zero i)) [
  | inl unset ↦ rw unset (omega arith)
  | inr given ↦ rw given (usable i h (rw given at positive))
]
  where
    usable : (j : ℤ) → IsPort j → is_positive j ≡ true → IsUsable j
    usable (pos n) h positive = ground arith
    usable (negsuc n) h positive = h

not-false : (b : Bool) → not b ≡ false → b ≡ true
not-false b h = ground arith

module _ (uri : ParsedUri) (host : is_empty uri.host ≡ false) where
  with_secret_2-IsComplete :
      {p : Profile}
      → IsUsable (default_port true uri.port)
      → with_secret true uri (hysteria_profile true uri) ≡ ok p
      → IsComplete p
  unfolding with_secret hysteria_profile
  with_secret_2-IsComplete usable e = rw (← ok-injective e) (record {
    server_ne_nil = is_empty-false uri.host host;
    transport_known = inr (inr (inr (inr (inr (inl refl)))));
    tls_known = inr (inl refl);
    credentials = inr (inr (inr (inr (inr (refl, usable)))));
  })

  with_secret_1-IsComplete :
      {p : Profile}
      → IsUsable (default_port false uri.port)
      → with_secret false uri (hysteria_profile false uri) ≡ ok p
      → IsComplete p
  unfolding with_secret hysteria_profile
  with_secret_1-IsComplete {p} usable e =
      let with_auth = record (hysteria_profile false uri) {
        password = query_value uri.query (codes "auth");
      } in
      let slow =
        not (is_positive (hysteria_profile false uri).upload_mbps)
        || not (is_positive (hysteria_profile false uri).download_mbps) in
      let (_, checked, e1) =
        bind-eq-ok (throw_if slow (codes "Field upmbps must be a positive integer."))
          (λ _. ok with_auth) e in
      let (up, down) =
        none_of_2 (not (is_positive (hysteria_profile false uri).upload_mbps))
          (not (is_positive (hysteria_profile false uri).download_mbps))
          (throw_if-eq-ok _ _ checked) in
      rw (← ok-injective {a = with_auth} {b = p} e1) (record {
        server_ne_nil = is_empty-false uri.host host;
        transport_known = inr (inr (inr (inr (inr (inl refl)))));
        tls_known = inr (inl refl);
        credentials = inr (inr (inr (inr (inl (refl, usable, not-false _ up, not-false _ down)))));
      })

with_secret-IsComplete :
    (version2 : Bool) (uri : ParsedUri) {p : Profile}
    → is_empty uri.host ≡ false
    → IsUsable (default_port version2 uri.port)
    → with_secret version2 uri (hysteria_profile version2 uri) ≡ ok p
    → IsComplete p
with_secret-IsComplete true uri host usable e = with_secret_2-IsComplete uri host usable e
with_secret-IsComplete false uri host usable e = with_secret_1-IsComplete uri host usable e

parse_hysteria-IsComplete :
    (link : Bytes) (version2 : Bool) {p : Profile}
    → parse_hysteria link version2 ≡ ok p
    → IsComplete p
unfolding parse_hysteria
parse_hysteria-IsComplete link version2 e =
    let (uri, parsed, e1) = bind-eq-ok (parse_uri link) _ e in
    let (_, checked, e2) =
      bind-eq-ok
        (throw_if (is_empty uri.host || not (is_positive (default_port version2 uri.port))) _) _
        e1 in
    let (host, port) =
      none_of_2 (is_empty uri.host) (not (is_positive (default_port version2 uri.port)))
        (throw_if-eq-ok _ _ checked) in
    with_secret-IsComplete version2 uri host
      (default_port-IsUsable version2 uri.port (uri_port link parsed) (not-false _ port)) e2

-- What a parser returns, if it returns.
abbrev Completes : Result Profile → Type 0
Completes (ok p) = IsComplete p
Completes (err m) = Unit

Completes-intro : (r : Result Profile) → ((p : Profile) → r ≡ ok p → IsComplete p) → Completes r
Completes-intro (ok p) h = h p refl
Completes-intro (err m) h = tt

Completes-if :
    (b : Bool) (r s : Result Profile) → Completes r → Completes s → Completes (if b then r else s)
Completes-if true r s h k = h
Completes-if false r s h k = k

parse_as-Completes : (scheme raw : Bytes) → Completes (parse_as scheme raw)
unfolding parse_as
parse_as-Completes scheme raw =
    let vless = λ (trojan : Bool).
      Completes-intro (parse_vless_or_trojan raw trojan)
        (λ p e. parse_vless_or_trojan-IsComplete raw trojan e) in
    let hysteria = λ (version2 : Bool).
      Completes-intro (parse_hysteria raw version2)
        (λ p e. parse_hysteria-IsComplete raw version2 e) in
    let vmess = Completes-intro (parse_vmess raw) (λ p e. parse_vmess-IsComplete raw e) in
    let ss = Completes-intro (parse_shadowsocks raw) (λ p e. parse_shadowsocks-IsComplete raw e) in
    Completes-if (is scheme "vless") _ _ (vless false) (
      Completes-if (is scheme "trojan") _ _ (vless true) (
        Completes-if (is scheme "vmess") _ _ vmess (
          Completes-if (is scheme "ss") _ _ ss (
            Completes-if (is scheme "hysteria") _ _ (hysteria false)
              (Completes-if (is scheme "hysteria2" || is scheme "hy2") _ _ (hysteria true) tt)))))

parse_with_scheme-Completes :
    (raw : Bytes) (cut : Option (Bytes × Bytes)) → Completes (parse_with_scheme raw cut)
unfolding parse_with_scheme
parse_with_scheme-Completes raw none = tt
parse_with_scheme-Completes raw (some ([], rest)) = tt
parse_with_scheme-Completes raw (some (c ∷ scheme, rest)) =
    parse_as-Completes (lower (c ∷ scheme)) raw

parse_line-Completes : (raw : Bytes) → Completes (parse_line raw)
unfolding parse_line
parse_line-Completes [] = tt
parse_line-Completes (c ∷ raw) =
    parse_with_scheme-Completes (c ∷ raw) (cut_seq (codes "://") (c ∷ raw))

-- Whatever text is given, a profile that parse_profile returns is complete: its server is not
-- empty, its transport and its TLS mode are known ones, its protocol is one of the six, and it has
-- what that protocol needs, a usable port (1 to INT_MAX) for every protocol but VMess, a user id
-- (VLESS, VMess), a password (Trojan), a method (Shadowsocks), positive bandwidths (Hysteria 1).
pub parse_profile-IsComplete :
    (raw_input : Bytes) {p : Profile} → parse_profile raw_input ≡ ok p → IsComplete p
unfolding parse_profile
parse_profile-IsComplete raw_input e =
    rw e at (parse_line-Completes (first_non_empty_line raw_input))
