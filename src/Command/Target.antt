-- ===== src/Command/Target.antt =====
-- cmd/go-xpra/main.go: what a connection URL says.
use go_xpra.Prelude.Bytes.{Bytes, codes}

pub data Transport : Type 0 where
  tcp ssl ssh ws wss socket : Transport

pub record Target : Type 0 where
  pub transport : Transport
  pub address : Bytes
  pub server_name : Bytes
  pub port : Bytes
  pub display : Bytes
  pub path : Bytes
  pub raw_path : Bytes
  pub raw_query : Bytes
  pub username : Bytes
  pub password : Bytes

abbrev pub default_ssh_port : Bytes
default_ssh_port = codes "22"
