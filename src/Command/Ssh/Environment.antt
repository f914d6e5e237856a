-- ===== src/Command/Ssh/Environment.antt =====
-- cmd/go-xpra/ssh.go: where the password goes.
use go_xpra.Prelude.{
  ◌≡◌, refl, sym, ap, ◌∙◌, inl, inr, Bool, true, false, List, [], ◌∷◌, ◌++◌, Option, none, some,
  if◌then◌else◌, arith, Bool-cases, Option-cases, append_assoc,
}
use go_xpra.Prelude.Bytes.{Bytes, codes}
use go_xpra.Prelude.Result.{Result, ok, err}
use go_xpra.Command.Target.{Target}
use go_xpra.Command.Ssh.{
  has_prefix, without_entry, set_environment, Invocation, SshError, is_empty, ssh_args,
  with_password, make_ssh_invocation,
}

-- The entries that a name has in an environment.
unfoldable pub entries_of : Bytes → List Bytes → List Bytes
unfolding has_prefix
entries_of prefix [] = []
entries_of prefix (entry ∷ environment) =
    let rest = entries_of prefix environment in
    if has_prefix entry prefix then entry ∷ rest else rest

has_prefix-append : (prefix rest : Bytes) → has_prefix (prefix ++ rest) prefix ≡ true
unfolding has_prefix
has_prefix-append [] [] = refl
has_prefix-append [] (b ∷ rest) = refl
has_prefix-append (p ∷ prefix) rest = ground (arith, has_prefix-append prefix rest)

entries_of-without_entry :
    (prefix : Bytes) (environment : List Bytes)
    → entries_of prefix (without_entry prefix environment) ≡ []
unfolding entries_of without_entry
entries_of-without_entry prefix [] = refl
entries_of-without_entry prefix (entry ∷ environment) =
    elim (Bool-cases (has_prefix entry prefix)) [
      | inl e ↦ rw (e, without_entry) (entries_of-without_entry prefix environment)
      | inr e ↦
          rw (e, without_entry) (rw (e, entries_of) (entries_of-without_entry prefix environment))
    ]

without_entry_idem :
    (prefix : Bytes) (environment : List Bytes)
    → without_entry prefix (without_entry prefix environment) ≡ without_entry prefix environment
unfolding without_entry
without_entry_idem prefix [] = refl
without_entry_idem prefix (entry ∷ environment) = elim (Bool-cases (has_prefix entry prefix)) [
  | inl e ↦ rw (e, without_entry) (without_entry_idem prefix environment)
  | inr e ↦
      rw (e, without_entry)
        (rw (e, without_entry) (ap (λ r. entry ∷ r) (without_entry_idem prefix environment)))
]

entries_of-snoc :
    (prefix entry : Bytes) (environment : List Bytes)
    → has_prefix entry prefix ≡ true
    → entries_of prefix (environment ++ (entry ∷ []))
      ≡ entries_of prefix environment ++ (entry ∷ [])
unfolding entries_of
entries_of-snoc prefix entry [] h = rw (h, entries_of) refl
entries_of-snoc prefix entry (x ∷ environment) h = elim (Bool-cases (has_prefix x prefix)) [
  | inl e ↦ rw (e, entries_of) (ap (λ r. x ∷ r) (entries_of-snoc prefix entry environment h))
  | inr e ↦ rw (e, entries_of) (entries_of-snoc prefix entry environment h)
]

without_entry-snoc :
    (prefix entry : Bytes) (environment : List Bytes)
    → has_prefix entry prefix ≡ true
    → without_entry prefix (environment ++ (entry ∷ [])) ≡ without_entry prefix environment
unfolding without_entry
without_entry-snoc prefix entry [] h = rw (h, without_entry) refl
without_entry-snoc prefix entry (x ∷ environment) h = elim (Bool-cases (has_prefix x prefix)) [
  | inl e ↦ rw (e, without_entry) (without_entry-snoc prefix entry environment h)
  | inr e ↦ rw (e, without_entry) (ap (λ r. x ∷ r) (without_entry-snoc prefix entry environment h))
]

named : (name value : Bytes) → has_prefix (name ++ (61 ∷ value)) (name ++ (61 ∷ [])) ≡ true
named name value =
    ap (λ e. has_prefix e (name ++ (61 ∷ []))) (sym (append_assoc name (61 ∷ []) value))
    ∙ has_prefix-append (name ++ (61 ∷ [])) value

-- setEnvironment leaves one entry for the name, the new one, and all entries for other names as they
-- were, in order.
pub set_environment_lem :
    (environment : List Bytes) (name value : Bytes)
    → (entries_of (name ++ (61 ∷ [])) (set_environment environment name value)
        ≡ (name ++ (61 ∷ value)) ∷ [])
      × (without_entry (name ++ (61 ∷ [])) (set_environment environment name value)
          ≡ without_entry (name ++ (61 ∷ [])) environment)
unfolding set_environment
set_environment_lem environment name value =
    let prefix = name ++ (61 ∷ []) in
    let others = without_entry prefix environment in
    (
      entries_of-snoc prefix (name ++ (61 ∷ value)) others (named name value)
          ∙ ap (λ l. l ++ ((name ++ (61 ∷ value)) ∷ []))
              (entries_of-without_entry prefix environment),
      without_entry-snoc prefix (name ++ (61 ∷ value)) others (named name value)
          ∙ without_entry_idem prefix environment,
    )

module _ (look_path : Bytes → Option Bytes) (environ : List Bytes) (t : Target) where
  without_ssh :
      look_path (codes "ssh") ≡ none → make_ssh_invocation look_path environ t ≡ err SshError.no_ssh
  unfolding make_ssh_invocation
  without_ssh absent = rw (absent, make_ssh_invocation) refl

  module _ (ssh_path : Bytes) (found : look_path (codes "ssh") ≡ some ssh_path) where
    without_sshpass :
        look_path (codes "sshpass") ≡ none
        → is_empty t.password ≡ false
        → make_ssh_invocation look_path environ t ≡ err SshError.no_sshpass
    unfolding make_ssh_invocation
    without_sshpass absent e = rw (found, e, absent, make_ssh_invocation) refl

    through_sshpass :
        (sshpass_path : Bytes)
        → look_path (codes "sshpass") ≡ some sshpass_path
        → is_empty t.password ≡ false
        → make_ssh_invocation look_path environ t
          ≡ ok (with_password look_path environ ssh_path sshpass_path t)
    unfolding make_ssh_invocation
    through_sshpass sshpass_path there e = rw (found, e, there, make_ssh_invocation) refl

-- What another user of the machine can see of a process, and its environment but for the password.
abbrev pub visible :
    Result SshError Invocation → Result SshError (Bytes × List Bytes × List Bytes × Bool)
visible (err failure) = err failure
visible (ok i) = ok (i.executable, i.args, without_entry (codes "SSHPASS=") i.env, i.uses_sshpass)

-- The password of an SSH URL reaches ssh only as SSHPASS: two passwords that are not empty give the
-- same program, the same arguments and otherwise the same environment, or fail alike.
pub make_ssh_invocation-visible :
    (look_path : Bytes → Option Bytes) (environ : List Bytes) (t : Target) (p q : Bytes)
    → is_empty p ≡ false
    → is_empty q ≡ false
    → visible (make_ssh_invocation look_path environ (record t { password = p }))
      ≡ visible (make_ssh_invocation look_path environ (record t { password = q }))
unfolding make_ssh_invocation with_password ssh_args
make_ssh_invocation-visible look_path environ t p q e f =
    elim (Option-cases (look_path (codes "ssh"))) [
      | inl absent ↦ ap visible (
          without_ssh look_path environ (record t { password = p }) absent
          ∙ sym (without_ssh look_path environ (record t { password = q }) absent))
      | inr (ssh_path, found) ↦ elim (Option-cases (look_path (codes "sshpass"))) [
        | inl absent ↦ ap visible (
            without_sshpass look_path environ (record t { password = p }) ssh_path found absent e
            ∙ sym (
                without_sshpass look_path environ (record t { password = q }) ssh_path found absent
                  f))
        | inr (sshpass_path, there) ↦
            ap visible (
              through_sshpass look_path environ (record t { password = p }) ssh_path found
                sshpass_path there e)
            ∙ ap (λ env. ok (sshpass_path, codes "-e" ∷ ssh_path ∷ ssh_args t, env, true))
                ((set_environment_lem environ (codes "SSHPASS") p).1
                  ∙ sym (set_environment_lem environ (codes "SSHPASS") q).1)
            ∙ ap visible (
                sym (
                  through_sshpass look_path environ (record t { password = q }) ssh_path found
                    sshpass_path there f))
      ]
    ]
