-- ===== src/Command/Ssh.antt =====
-- cmd/go-xpra/ssh.go: the command that starts the ssh client, and its process.
pub mod Quoting
pub mod Remote
pub mod Environment
use go_xpra.Prelude.{
  Bool, true, false, not, ◌&&◌, List, [], ◌∷◌, ◌++◌, Option, none, some, ◌==◌, if◌then◌else◌,
}
use go_xpra.Prelude.Bytes.{Bytes, codes, bytes_eq}
use go_xpra.Prelude.Result.{Result, ok, err, ◌>>=◌}
use go_xpra.Command.Target.{Target, default_ssh_port}

-- A quote ends the quoted part, stands escaped, and begins the next one.
unfoldable pub escape_quotes : Bytes → Bytes
escape_quotes [] = []
escape_quotes (c ∷ cs) =
    let rest = escape_quotes cs in if c == 39 then 39 ∷ 92 ∷ 39 ∷ 39 ∷ rest else c ∷ rest

unfoldable pub shell_quote : Bytes → Bytes
unfolding escape_quotes
shell_quote value = 39 ∷ (escape_quotes value ++ (39 ∷ []))

abbrev pub proxy_start : Bytes
proxy_start = codes "if command -v \"xpra\" > /dev/null 2>&1; then "

abbrev pub proxy_end : Bytes
proxy_end = codes "; else echo \"no xpra command found\" 1>&2; exit 1; fi"

unfoldable pub proxy_command : Bytes → Bytes
unfolding shell_quote
proxy_command [] = codes "xpra _proxy"
proxy_command (c ∷ cs) = codes "xpra _proxy" ++ (32 ∷ shell_quote (c ∷ cs))

unfoldable pub inner_command : Bytes → Bytes
unfolding proxy_command
inner_command display = proxy_start ++ (proxy_command display ++ proxy_end)

unfoldable pub ssh_remote_command : Bytes → Bytes
unfolding inner_command shell_quote
ssh_remote_command display = codes "sh -c " ++ shell_quote (inner_command display)

unfoldable pub has_prefix : Bytes → Bytes → Bool
has_prefix bytes [] = true
has_prefix [] (p ∷ prefix) = false
has_prefix (b ∷ bytes) (p ∷ prefix) = b == p && has_prefix bytes prefix

unfoldable pub without_entry : Bytes → List Bytes → List Bytes
unfolding has_prefix
without_entry prefix [] = []
without_entry prefix (entry ∷ environment) =
    let rest = without_entry prefix environment in
    if not (has_prefix entry prefix) then entry ∷ rest else rest

unfoldable pub set_environment : List Bytes → Bytes → Bytes → List Bytes
unfolding without_entry
set_environment environment name value =
    without_entry (name ++ (61 ∷ [])) environment ++ ((name ++ (61 ∷ value)) ∷ [])

pub data SshError : Type 0 where
  no_ssh no_sshpass : SshError

pub record Invocation : Type 0 where
  pub executable : Bytes
  pub args : List Bytes
  pub env : List Bytes
  pub uses_sshpass : Bool

unfoldable pub is_empty : Bytes → Bool
is_empty [] = true
is_empty (b ∷ bs) = false

unfoldable pub ssh_args : Target → List Bytes
unfolding is_empty ssh_remote_command
ssh_args target =
    codes "-x"
    ∷ codes "-T"
    ∷ ((if not (is_empty target.port) && not (bytes_eq target.port default_ssh_port)
          then codes "-p" ∷ target.port ∷ []
          else [])
        ++ ((if not (is_empty target.username) then codes "-l" ∷ target.username ∷ [] else [])
            ++ (target.server_name ∷ ssh_remote_command target.display ∷ [])))

-- The place of a program in PATH, or that it is not there, and the environment of this process.
module _ (look_path : Bytes → Option Bytes) (environ : List Bytes) where
  unfoldable pub plain_invocation : Bytes → Target → Invocation
  unfolding ssh_args
  plain_invocation ssh_path target = record {
    executable = ssh_path;
    args = ssh_args target;
    env = environ;
    uses_sshpass = false;
  }

  unfoldable pub with_password : Bytes → Bytes → Target → Invocation
  unfolding ssh_args set_environment
  with_password ssh_path sshpass_path target = record {
    executable = sshpass_path;
    args = codes "-e" ∷ ssh_path ∷ ssh_args target;
    env = set_environment environ (codes "SSHPASS") target.password;
    uses_sshpass = true;
  }

  unfoldable pub make_ssh_invocation : Target → Result SshError Invocation
  unfolding plain_invocation with_password is_empty
  make_ssh_invocation target = elim (look_path (codes "ssh")) [
    | none ↦ err SshError.no_ssh
    | some ssh_path ↦
        if is_empty target.password
        then ok (plain_invocation ssh_path target)
        else elim (look_path (codes "sshpass")) [
          | none ↦ err SshError.no_sshpass
          | some sshpass_path ↦ ok (with_password ssh_path sshpass_path target)
        ]
  ]
