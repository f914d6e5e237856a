-- ===== src/Command/Dialog/Accepted.antt =====
-- cmd/go-xpra/connect_dialog.go: the targets of the connection form.
use go_xpra.Prelude.{
  ◌≡◌, ◌≢◌, ◌∷◌, refl, subst, inl, inr, false, ◌&&◌, ◌||◌, [], Option, arith, Option-cases,
}
use go_xpra.Prelude.Bytes.{Bytes, codes}
use go_xpra.Prelude.Result.{ok, err, >>=-eq-ok, if-ok}
use go_xpra.Prelude.Text.{trim_space}
use go_xpra.Rencode.Decimal.{append_nat}
use go_xpra.Command.Shell.{one_of}
use go_xpra.Command.Target.{Transport, Target}
use go_xpra.Command.Ssh.{has_prefix, is_empty}
use go_xpra.Command.Url.{Url, validate_socket_path, is_ssh, parse_port, has_control}
use go_xpra.Command.Url.Accepted.{
  IsPort, IsSegment, IsSocketPath, number-IsPort, parse_port_bounds, segment_lem,
  validate_socket_path-IsSocketPath,
}
use go_xpra.Command.Dialog.{
  Form, FormError, without_brackets, form_port, form_display, form_endpoint, form_socket,
  form_remote, form_target,
}

-- As for a URL, but for the host, which brackets alone make empty.
abbrev pub IsFormTargetOf : Transport → Target → Type 0
IsFormTargetOf Transport.socket t = IsSocketPath t.address
IsFormTargetOf Transport.ssh t =
    IsPort t.port × ((rest : Bytes) → t.server_name ≢ 45 ∷ rest) × IsSegment t.display
IsFormTargetOf transport t = IsPort t.port × (t.display ≡ [])

no_dash : (name : Bytes) → has_prefix name (codes "-") ≡ false → (rest : Bytes) → name ≢ 45 ∷ rest
unfolding has_prefix
no_dash name e rest q =
    let clash : has_prefix (45 ∷ rest) (codes "-") ≡ false =
      subst (λ b. has_prefix b (codes "-") ≡ false) q e in
    absurd cc

form_port-IsPort : (text port : Bytes) → form_port text ≡ ok port → IsPort port
unfolding form_port
form_port-IsPort text port e = elim (Option-cases (parse_port (trim_space text))) [
  | inl bad ↦
      let clash : err FormError.port_outside ≡ ok port = rw (bad, form_port) at e in absurd cc
  | inr (number, good) ↦
      let written : ok (append_nat [] number) ≡ ok port = rw (good, form_port) at e in
      let equal : append_nat [] number ≡ port = cc in
      subst IsPort equal (number-IsPort number (parse_port_bounds (trim_space text) number good))
]

form_display-IsSegment :
    (text display : Bytes) → form_display Transport.ssh text ≡ ok display → IsSegment display
unfolding form_display
form_display-IsSegment text display e =
    let (fits, same) =
      if-ok (one_of b'/' (trim_space text) || has_control (trim_space text)) _ _ e in
    let equal : trim_space text ≡ display = cc in
    subst IsSegment equal (segment_lem (trim_space text) (ground arith) (ground arith))

form_display-nil :
    (transport : Transport) (text display : Bytes)
    → is_ssh transport ≡ false
    → form_display transport text ≡ ok display
    → display ≡ []
unfolding form_display
form_display-nil transport text display other e =
    let chosen : ok [] ≡ ok display = rw (other, form_display) at e in cc

module _ (parse : Bytes → Option Url) (join_host_port : Bytes → Bytes → Bytes) where
  form_remote-IsFormTargetOf :
      (transport : Transport) (f : Form) (t : Target)
      → transport ≢ Transport.socket
      → form_remote parse join_host_port transport f ≡ ok t
      → (t.transport ≡ transport) × IsFormTargetOf transport t
  unfolding form_remote
  form_remote-IsFormTargetOf transport f t n e =
      let (given, e1) = if-ok (is_empty (trim_space f.host)) _ _ e in
      let (port, p, e2) = >>=-eq-ok (form_port f.port) _ e1 in
      let (dash, e3) =
        if-ok (is_ssh transport && has_prefix (without_brackets (trim_space f.host)) (codes "-")) _
          _ e2 in
      let (display, d, e4) = >>=-eq-ok (form_display transport f.display) _ e3 in
      let (endpoint, q, e5) = >>=-eq-ok (form_endpoint parse transport f.path) _ e4 in
      let made : Target = record {
        transport = transport;
        address = join_host_port (without_brackets (trim_space f.host)) port;
        server_name = without_brackets (trim_space f.host);
        port = port;
        display = display;
        path = endpoint.0;
        raw_path = endpoint.1;
        raw_query = endpoint.2;
        username = f.username;
        password = f.password;
      } in
      let same : made ≡ t = cc in
      subst (λ r. (r.transport ≡ transport) × IsFormTargetOf transport r) same
        (refl, assembled transport made n (form_port-IsPort f.port port p) dash f.display d)
    where
      assembled :
          (transport : Transport) (t : Target)
          → transport ≢ Transport.socket
          → IsPort t.port
          → (is_ssh transport && has_prefix t.server_name (codes "-")) ≡ false
          → (text : Bytes) → form_display transport text ≡ ok t.display
          → IsFormTargetOf transport t
      assembled Transport.socket t n p dash text d = absurd (n refl)
      assembled Transport.ssh t n p dash text d =
          (p, no_dash t.server_name dash, form_display-IsSegment text t.display d)
      assembled Transport.tcp t n p dash text d =
          (p, form_display-nil Transport.tcp text t.display refl d)
      assembled Transport.ssl t n p dash text d =
          (p, form_display-nil Transport.ssl text t.display refl d)
      assembled Transport.ws t n p dash text d =
          (p, form_display-nil Transport.ws text t.display refl d)
      assembled Transport.wss t n p dash text d =
          (p, form_display-nil Transport.wss text t.display refl d)

  form_socket-IsFormTargetOf :
      (f : Form) (t : Target)
      → form_socket f ≡ ok t
      → (t.transport ≡ Transport.socket) × IsFormTargetOf Transport.socket t
  unfolding form_socket
  form_socket-IsFormTargetOf f t e =
      elim (Option-cases (validate_socket_path (trim_space f.host))) [
        | inr (failure, bad) ↦
            let clash : err (FormError.bad_path failure) ≡ ok t = rw (bad, form_socket) at e in
            absurd cc
        | inl good ↦
            let made : Target = record {
              transport = Transport.socket;
              address = trim_space f.host;
              server_name = [];
              port = [];
              display = [];
              path = [];
              raw_path = [];
              raw_query = [];
              username = f.username;
              password = f.password;
            } in
            let written : ok made ≡ ok t = rw (good, form_socket) at e in
            let same : made ≡ t = cc in
            subst (λ r. (r.transport ≡ Transport.socket) × IsFormTargetOf Transport.socket r) same
              (refl, validate_socket_path-IsSocketPath (trim_space f.host) good)
      ]

  -- A form that is accepted names a target of the selected protocol. Of a socket, the address is an
  -- absolute path without NUL, other than `/`. Otherwise the port is a decimal number from 1 to 65535;
  -- for ssh, the host does not begin with a dash, also when brackets are taken off, and the display has
  -- no slash and no control character; all others have no display.
  pub form_target-IsFormTargetOf :
      (f : Form) (t : Target)
      → form_target parse join_host_port f ≡ ok t
      → (t.transport ≡ f.protocol) × IsFormTargetOf f.protocol t
  unfolding form_target
  form_target-IsFormTargetOf f t e = chosen f.protocol refl
    where
      chosen :
          (transport : Transport)
          → f.protocol ≡ transport
          → (t.transport ≡ f.protocol) × IsFormTargetOf f.protocol t
      chosen Transport.socket s = rw s (form_socket-IsFormTargetOf f t (rw (s, form_target) at e))
      chosen Transport.tcp s =
          rw s (form_remote-IsFormTargetOf Transport.tcp f t (λ c. cc) (rw (s, form_target) at e))
      chosen Transport.ssl s =
          rw s (form_remote-IsFormTargetOf Transport.ssl f t (λ c. cc) (rw (s, form_target) at e))
      chosen Transport.ssh s =
          rw s (form_remote-IsFormTargetOf Transport.ssh f t (λ c. cc) (rw (s, form_target) at e))
      chosen Transport.ws s =
          rw s (form_remote-IsFormTargetOf Transport.ws f t (λ c. cc) (rw (s, form_target) at e))
      chosen Transport.wss s =
          rw s (form_remote-IsFormTargetOf Transport.wss f t (λ c. cc) (rw (s, form_target) at e))
