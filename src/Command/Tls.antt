-- ===== src/Command/Tls.antt =====
-- cmd/go-xpra/main.go: the TLS configuration. The pools of certificates and files are parameters.
use go_xpra.Prelude.{
  ◌≡◌, ◌≢◌, ◌⊎◌, refl, ap, ◌∙◌, subst, [], ◌∷◌, inl, inr, Bool, true, false, not, ◌&&◌, ◌||◌,
  Option, none, some, if◌then◌else◌, arith, Bool-cases, Option-cases,
}
use go_xpra.Prelude.Bytes.{Bytes}
use go_xpra.Prelude.Result.{Result, ok, err, ◌>>=◌, >>=-eq-ok, if-ok}
use go_xpra.Command.Target.{Transport, Target}
use go_xpra.Command.Ssh.{is_empty}

pub record SslOptions : Type 0 where
  pub ca_cert : Bytes
  pub insecure : Bool

pub data TlsError : Type 0 where
  options_without_tls conflicting system_pool unreadable no_certificates : TlsError

abbrev pub is_secure : Transport → Bool
is_secure Transport.ssl = true
is_secure Transport.wss = true
is_secure _ = false

nil_of_empty : (b : Bytes) → is_empty b ≡ true → b ≡ []
unfolding is_empty
nil_of_empty [] e = refl
nil_of_empty (c ∷ b) e = absurd cc

not_empty : (b : Bytes) → is_empty b ≡ false → b ≢ []
unfolding is_empty
not_empty [] e = absurd cc
not_empty (c ∷ b) e = λ q. absurd cc

-- The minimum is always TLS 1.2. Without roots of its own, the system's are used.
pub record TlsConfig (Pool : Type 0) : Type 0 where
  pub server_name : Bytes
  pub insecure_skip_verify : Bool
  pub root_cas : Option Pool

-- What x509 and the file system know: the system's pool, which may fail to load or be nil, a new one,
-- the contents of files, and a pool with the certificates of a file added, if it has any.
pub record Certificates (Pool : Type 0) : Type 0 where
  pub system_cert_pool : Option (Option Pool)
  pub new_cert_pool : Pool
  pub read_file : Bytes → Option Bytes
  pub append_certs : Pool → Bytes → Option Pool

module _ {Pool : Type 0} (x : Certificates Pool) where
  unfoldable pub or_new : Option Pool → Pool
  or_new none = x.new_cert_pool
  or_new (some pool) = pool

  unfoldable pub load_roots : Bytes → Result TlsError Pool
  unfolding or_new
  load_roots path = elim x.system_cert_pool [
    | none ↦ err TlsError.system_pool
    | some roots ↦ elim (x.read_file path) [
      | none ↦ err TlsError.unreadable
      | some pem ↦ elim (x.append_certs (or_new roots) pem) [
        | none ↦ err TlsError.no_certificates
        | some pool ↦ ok pool
      ]
    ]
  ]

  unfoldable pub config_of : Target → SslOptions → Option Pool → TlsConfig Pool
  config_of target options roots = record {
    server_name = target.server_name;
    insecure_skip_verify = options.insecure;
    root_cas = roots;
  }

  unfoldable pub make_tls_config : Target → SslOptions → Result TlsError (Option (TlsConfig Pool))
  unfolding load_roots is_empty config_of
  make_tls_config target options =
      if not (is_secure target.transport)
      then (if not (is_empty options.ca_cert) || options.insecure
          then err TlsError.options_without_tls
          else ok none)
      else if not (is_empty options.ca_cert) && options.insecure
      then err TlsError.conflicting
      else if is_empty options.ca_cert
      then ok (
          some (record {
            server_name = target.server_name;
            insecure_skip_verify = options.insecure;
            root_cas = none;
          }))
      else load_roots options.ca_cert >>= (λ roots. ok (
          some (record {
            server_name = target.server_name;
            insecure_skip_verify = options.insecure;
            root_cas = some roots;
          })))

  -- What a CA file gives: the certificates in it, added to the system's pool or to a new one.
  abbrev pub IsRoots : Bytes → Pool → Type 0
  IsRoots path pool =
      (pem : Bytes) × (system : Option Pool) × (x.read_file path ≡ some pem)
      × (x.system_cert_pool ≡ some system)
      × (x.append_certs (elim system [ none ↦ x.new_cert_pool | some known ↦ known ]) pem
          ≡ some pool)

  or_new-eq :
      (system : Option Pool)
      → (elim system [ none ↦ x.new_cert_pool | some known ↦ known ]) ≡ or_new system
  unfolding or_new
  or_new-eq none = refl
  or_new-eq (some known) = refl

  load_roots-IsRoots : (path : Bytes) (pool : Pool) → load_roots path ≡ ok pool → IsRoots path pool
  unfolding load_roots or_new
  load_roots-IsRoots path pool e = elim (Option-cases x.system_cert_pool) [
    | inl failed ↦
        let clash : err TlsError.system_pool ≡ ok pool = rw (failed, load_roots) at e in absurd cc
    | inr (system, found) ↦ elim (Option-cases (x.read_file path)) [
      | inl unread ↦
          let clash : err TlsError.unreadable ≡ ok pool = rw (found, unread, load_roots) at e in
          absurd cc
      | inr (pem, read) ↦ elim (Option-cases (x.append_certs (or_new system) pem)) [
        | inl empty ↦
            let clash : err TlsError.no_certificates ≡ ok pool =
              rw (found, read, empty, load_roots) at e in
            absurd cc
        | inr (made, added) ↦
            let written : ok made ≡ ok pool = rw (found, read, added, load_roots) at e in
            let same : made ≡ pool = cc in
            (
              pem,
              system,
              read,
              found,
              ap (λ o. x.append_certs o pem) (or_new-eq system) ∙ added ∙ ap some same,
            )
      ]
    ]
  ]

  -- What holds of a configuration, or of none.
  abbrev pub IsChecked : Target → SslOptions → Option (TlsConfig Pool) → Type 0
  IsChecked target options none =
      (is_secure target.transport ≡ false) × (options.ca_cert ≡ []) × (options.insecure ≡ false)
  IsChecked target options (some config) =
      (is_secure target.transport ≡ true)
      × (config.server_name ≡ target.server_name)
      × (config.insecure_skip_verify ≡ options.insecure)
      × (((options.ca_cert ≡ []) × (config.root_cas ≡ none))
          ⊎ ((options.ca_cert ≢ [])
              × (options.insecure ≡ false)
              × ((pool : Pool) × IsRoots options.ca_cert pool × (config.root_cas ≡ some pool))))

  -- A configuration is made for ssl and wss only, and always for them. It names the host, skips the
  -- verification exactly if that option was given, and has roots of its own exactly if a CA file was
  -- given: the system's certificates, if there are any, with those that were read from the file, and
  -- never together with that option. No option is ignored without TLS.
  pub make_tls_config-IsChecked :
      (target : Target) (options : SslOptions) (made : Option (TlsConfig Pool))
      → make_tls_config target options ≡ ok made
      → IsChecked target options made
  unfolding make_tls_config config_of
  make_tls_config-IsChecked target options made e = elim (Bool-cases (is_secure target.transport)) [
    | inr plain ↦
        let step : (if not (is_empty options.ca_cert) || options.insecure
              then err TlsError.options_without_tls
              else ok none)
            ≡ ok made =
          rw (plain, make_tls_config) at e in
        let (unused, same) = if-ok (not (is_empty options.ca_cert) || options.insecure) _ _ step in
        let equal : none ≡ made = cc in
        subst (IsChecked target options) equal
          (plain, nil_of_empty options.ca_cert (ground arith), ground arith)
    | inl secure ↦ elim (Bool-cases (is_empty options.ca_cert)) [
      | inl absent ↦
          let step : ok (some (config_of target options none)) ≡ ok made =
            rw (secure, absent, make_tls_config) at e in
          let equal : some (config_of target options none) ≡ made = cc in
          subst (IsChecked target options) equal
            (secure, refl, refl, inl (nil_of_empty options.ca_cert absent, refl))
      | inr given ↦
          let step : (if options.insecure
                then err TlsError.conflicting
                else load_roots options.ca_cert
                  >>= (λ roots. ok (some (config_of target options (some roots)))))
              ≡ ok made =
            rw (secure, given, make_tls_config) at e in
          let (checked, loading) = if-ok options.insecure _ _ step in
          let (pool, loaded, same) = >>=-eq-ok (load_roots options.ca_cert) _ loading in
          let equal : some (config_of target options (some pool)) ≡ made = cc in
          subst (IsChecked target options) equal (
            secure,
            refl,
            refl,
            inr (
              not_empty options.ca_cert given,
              checked,
              (pool, load_roots-IsRoots options.ca_cert pool loaded, refl),
            ),
          )
    ]
  ]
