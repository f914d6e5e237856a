-- ===== src/Command/Url/Targets.antt =====
-- cmd/go-xpra/main.go: every accepted URL.
use go_xpra.Prelude.{
  ◌≡◌, ◌≢◌, refl, sym, subst, inl, inr, false, not, ◌&&◌, ◌||◌, [], Option, none, some,
  if◌then◌else◌, Option-cases,
}
use go_xpra.Prelude.Bytes.{Bytes, codes, bytes_eq}
use go_xpra.Prelude.Result.{ok, err, >>=-eq-ok, if-ok}
use go_xpra.Command.Target.{Transport, Target}
use go_xpra.Command.Ssh.{has_prefix, is_empty}
use go_xpra.Command.Url.{
  Url, UrlError, validate_socket_path, is_ssh, is_web_socket, with_user, socket_target, port_of,
  display_of, host_target, remote_target, target_of, parse_connection_url, transport_of, to_lower,
}
use go_xpra.Command.Url.Accepted.{
  IsPort, IsSegment, IsTargetOf, port_of-IsPort, display_of-IsSegment, no_display,
  validate_socket_path-IsSocketPath, host_lem, not_empty,
}

with_user-IsTargetOf :
    (transport : Transport) (user : Option (Bytes × Bytes)) (t : Target)
    → IsTargetOf transport t
    → IsTargetOf transport (with_user user t)
unfolding with_user
with_user-IsTargetOf transport none t k = k
with_user-IsTargetOf Transport.tcp (some (name, password)) t k = k
with_user-IsTargetOf Transport.ssl (some (name, password)) t k = k
with_user-IsTargetOf Transport.ssh (some (name, password)) t k = k
with_user-IsTargetOf Transport.ws (some (name, password)) t k = k
with_user-IsTargetOf Transport.wss (some (name, password)) t k = k
with_user-IsTargetOf Transport.socket (some (name, password)) t k = k

with_user-transport :
    (user : Option (Bytes × Bytes)) (t : Target) → (with_user user t).transport ≡ t.transport
unfolding with_user
with_user-transport none t = refl
with_user-transport (some (name, password)) t = refl

-- The target that its own transport asks for.
abbrev pub IsTarget : Target → Type 0
IsTarget t = IsTargetOf t.transport t

settled :
    (transport : Transport) (t : Target)
    → t.transport ≡ transport
    → IsTargetOf transport t
    → IsTarget t
settled transport t e k = subst (λ r. IsTargetOf r t) (sym e) k

abbrev path_target : Bytes → Target
path_target path = record {
  transport = Transport.socket;
  address = path;
  server_name = [];
  port = [];
  display = [];
  path = [];
  raw_path = [];
  raw_query = [];
  username = [];
  password = [];
}

accepted_path :
    (u : Url) (t : Target)
    → validate_socket_path u.path ≡ none
    → with_user u.user (path_target u.path) ≡ t
    → IsTarget t
accepted_path u t good e = subst IsTarget e (
    settled Transport.socket _ (with_user-transport u.user (path_target u.path)) (
      with_user-IsTargetOf Transport.socket u.user (path_target u.path)
        (validate_socket_path-IsSocketPath u.path good)))

socket_target-IsTarget :
    (raw scheme : Bytes) (u : Url) (t : Target) → socket_target raw scheme u ≡ ok t → IsTarget t
unfolding socket_target
socket_target-IsTarget raw scheme u t e =
    let (form, e1) = if-ok (not (is_empty u.opaque) || not (has_prefix (to_lower raw) _)) _ _ e in
    let (host, e2) = if-ok (not (is_empty u.host)) _ _ e1 in
    let (query, e3) = if-ok (not (is_empty u.raw_query) || not (is_empty u.fragment)) _ _ e2 in
    elim (Option-cases (validate_socket_path u.path)) [
      | inl good ↦
          let same : ok (with_user u.user (path_target u.path)) ≡ ok t = rw good at e3 in
          (let equal : with_user u.user (path_target u.path) ≡ t = cc in
            accepted_path u t good equal)
      | inr (failure, bad) ↦
          let clash : err (UrlError.socket_path failure) ≡ ok t = rw bad at e3 in absurd cc
    ]

module _ (parse : Bytes → Option Url) (join_host_port : Bytes → Bytes → Bytes) where
  host_target-IsTargetOf :
      (transport : Transport) (u : Url) (port display : Bytes)
      → transport ≢ Transport.socket
      → IsPort port
      → is_empty u.hostname ≡ false
      → (is_ssh transport && has_prefix u.hostname (codes "-")) ≡ false
      → IsSegment display
      → (is_ssh transport ≡ false → display ≡ [])
      → IsTargetOf transport (host_target parse join_host_port transport u port display)
  unfolding host_target
  host_target-IsTargetOf Transport.ssh u port display n p h d s a =
      with_user-IsTargetOf Transport.ssh u.user _ (p, host_lem u.hostname h d, s)
  host_target-IsTargetOf Transport.tcp u port display n p h d s a =
      with_user-IsTargetOf Transport.tcp u.user _ (p, not_empty u.hostname h, a refl)
  host_target-IsTargetOf Transport.ssl u port display n p h d s a =
      with_user-IsTargetOf Transport.ssl u.user _ (p, not_empty u.hostname h, a refl)
  host_target-IsTargetOf Transport.ws u port display n p h d s a =
      with_user-IsTargetOf Transport.ws u.user _ (p, not_empty u.hostname h, a refl)
  host_target-IsTargetOf Transport.wss u port display n p h d s a =
      with_user-IsTargetOf Transport.wss u.user _ (p, not_empty u.hostname h, a refl)
  host_target-IsTargetOf Transport.socket u port display n p h d s a = absurd (n refl)

  host_target-transport :
      (transport : Transport) (u : Url) (port display : Bytes)
      → (host_target parse join_host_port transport u port display).transport ≡ transport
  unfolding host_target
  host_target-transport transport u port display = with_user-transport u.user _

  remote_target-IsTarget :
      (transport : Transport) (u : Url) (t : Target)
      → transport ≢ Transport.socket
      → remote_target parse join_host_port transport u ≡ ok t
      → IsTarget t
  unfolding remote_target
  remote_target-IsTarget transport u t n e =
      let (g1, e1) = if-ok (not (is_empty u.opaque) || is_empty u.host) _ _ e in
      let (g2, e2) =
        if-ok
          (not (is_ssh transport)
            && not (is_web_socket transport)
            && not (is_empty u.path)
            && not (bytes_eq u.path (codes "/")))
          _ _ e1 in
      let (g3, e3) =
        if-ok
          ((not (is_web_socket transport) && not (is_empty u.raw_query))
            || not (is_empty u.fragment))
          _ _ e2 in
      let (named, e4) = if-ok (is_empty u.hostname) _ _ e3 in
      let (dash, e5) = if-ok (is_ssh transport && has_prefix u.hostname (codes "-")) _ _ e4 in
      let (port, p, e6) = >>=-eq-ok (port_of transport u) _ e5 in
      let (display, d, e7) = >>=-eq-ok (display_of transport u.path) _ e6 in
      let same : host_target parse join_host_port transport u port display ≡ t = cc in
      subst IsTarget same (
        settled transport _ (host_target-transport transport u port display) (
          host_target-IsTargetOf transport u port display n (port_of-IsPort transport u port p)
            named dash (display_of-IsSegment transport u.path display d)
            (λ other. no_display transport u.path display other d)))

  target_of-IsTarget :
      (raw scheme : Bytes) (u : Url) (transport : Transport) (t : Target)
      → target_of parse join_host_port raw scheme u transport ≡ ok t
      → IsTarget t
  unfolding target_of
  target_of-IsTarget raw scheme u Transport.socket t e = socket_target-IsTarget raw scheme u t e
  target_of-IsTarget raw scheme u Transport.tcp t e =
      remote_target-IsTarget Transport.tcp u t (λ c. cc) e
  target_of-IsTarget raw scheme u Transport.ssl t e =
      remote_target-IsTarget Transport.ssl u t (λ c. cc) e
  target_of-IsTarget raw scheme u Transport.ssh t e =
      remote_target-IsTarget Transport.ssh u t (λ c. cc) e
  target_of-IsTarget raw scheme u Transport.ws t e =
      remote_target-IsTarget Transport.ws u t (λ c. cc) e
  target_of-IsTarget raw scheme u Transport.wss t e =
      remote_target-IsTarget Transport.wss u t (λ c. cc) e

  -- Whatever net/url makes of a text: if parseConnectionURL accepts it as a socket URL, the address
  -- is an absolute path without NUL, other than `/`. Otherwise the port is a decimal number from 1
  -- to 65535 and the host is not empty; of an ssh URL, the host does not begin with a dash and the
  -- display has no slash and no control character; all others have no display.
  pub parse_connection_url-IsTarget :
      (raw : Bytes) (t : Target) → parse_connection_url parse join_host_port raw ≡ ok t → IsTarget t
  unfolding parse_connection_url
  parse_connection_url-IsTarget raw t e = elim (Option-cases (parse raw)) [
    | inl bad ↦
        let clash : err UrlError.invalid ≡ ok t = rw (bad, parse_connection_url) at e in absurd cc
    | inr (u, parsed) ↦ elim (Option-cases (transport_of (to_lower u.scheme))) [
      | inl unknown ↦
          let refused : (if is_empty u.scheme
                then err UrlError.scheme_required
                else err UrlError.scheme_unsupported)
              ≡ ok t =
            rw (parsed, unknown, parse_connection_url) at e in
          let (named, clash) = if-ok (is_empty u.scheme) _ _ refused in absurd cc
      | inr (transport, known) ↦
          let accepted : target_of parse join_host_port raw (to_lower u.scheme) u transport ≡ ok t =
            rw (parsed, known, parse_connection_url) at e in
          target_of-IsTarget raw (to_lower u.scheme) u transport t accepted
    ]
  ]
