-- ===== src/Wayland/Wire.antt =====
-- wayland/wire.go: the requests that carry a string. A request is the bytes of its buffer; its object
-- and opcode stand for the bindings' proxy. What the bindings compute is a parameter.
pub mod Layout
use go_xpra.Prelude.{
  ℕ, suc, ◌+◌, ◌-◌, ◌*◌, ◌%◌, ◌^◌, ◌≤◌, ◌≡◌, refl, sym, ap, ◌∙◌, [], ◌∷◌, ◌++◌, length, replicate,
  length-append, length-replicate, append-nil, append_assoc, arith,
}
use go_xpra.Prelude.Bytes.{Bytes, overwrite}

abbrev pub opcode_registry_bind : ℕ
opcode_registry_bind = 0

abbrev pub opcode_toplevel_set_title : ℕ
opcode_toplevel_set_title = 2

abbrev pub opcode_toplevel_set_app_id : ℕ
opcode_toplevel_set_app_id = 3

abbrev pub request_header : ℕ
request_header = 8

abbrev pub blank : ℕ → Bytes
blank n = replicate n 0

-- `client.PutUint32` as the four bytes that it writes, and `client.PaddedLen`.
module _ (put_uint32 : ℕ → Bytes) (padded_len : ℕ → ℕ) where
  unfoldable pub string_size : Bytes → ℕ
  string_size value = 4 + padded_len (length value + 1)

  -- The size as a uint32, and an opcode below 2 ^ 16 in the bits that the shift leaves zero.
  unfoldable pub size_and_opcode : ℕ → ℕ → ℕ
  size_and_opcode size opcode = size * 2 ^ 16 % 2 ^ 32 + opcode

  unfoldable pub new_request : ℕ → ℕ → ℕ → Bytes
  unfolding size_and_opcode
  new_request id opcode arg_bytes =
      let size = request_header + arg_bytes in
      overwrite 4 (put_uint32 (size_and_opcode size opcode))
        (overwrite 0 (put_uint32 id) (blank size))

  -- The string argument at a place of the request.
  unfoldable pub put_string : ℕ → Bytes → Bytes → Bytes
  put_string at value request =
      overwrite (at + 4) value (overwrite at (put_uint32 (length value + 1)) request)

  unfoldable pub bind_global : ℕ → ℕ → Bytes → ℕ → ℕ → Bytes
  unfolding string_size new_request put_string
  bind_global registry name iface version proxy =
      let at = 12 + string_size iface in
      overwrite (at + 4) (put_uint32 proxy) (
        overwrite at (put_uint32 version) (
          put_string 12 iface (
            overwrite 8 (put_uint32 name)
              (new_request registry opcode_registry_bind (4 + string_size iface + 4 + 4)))))

  unfoldable pub string_request : ℕ → ℕ → Bytes → Bytes
  unfolding string_size new_request put_string
  string_request proxy opcode value =
      put_string request_header value (new_request proxy opcode (string_size value))
