-- ===== src/Wayland/Wire/Layout.antt =====
-- wayland/wire.go: the bytes of the requests that carry a string.
use go_xpra.Prelude.{
  ℕ, zero, suc, ◌+◌, ◌-◌, ◌≤◌, ◌≡◌, refl, sym, ap, ◌∙◌, [], ◌∷◌, ◌++◌, length, length-append,
  length-replicate, append-nil, append_assoc, arith,
}
use go_xpra.Prelude.Bytes.{Bytes, overwrite}
use go_xpra.Client.Mmap.Token.Overwrite.{overwrite_lem}
use go_xpra.Wayland.Wire.{
  blank, opcode_registry_bind, string_size, size_and_opcode, new_request, put_string, bind_global,
  string_request,
}

blank-add : (k j n : ℕ) → n ≡ k + j → blank n ≡ blank k ++ blank j
blank-add zero j n e = ap blank (let f : n ≡ j = omega arith in f)
blank-add (suc k) j zero e = absurd (omega arith)
blank-add (suc k) j (suc n) e = ap (λ l. 0 ∷ l) (blank-add k j n (omega arith))

-- A write behind what is written already.
fill :
    (at n rest : ℕ) (front bs : Bytes)
    → at ≡ length front
    → n ≡ length bs + rest
    → overwrite at bs (front ++ blank n) ≡ (front ++ bs) ++ blank rest
fill at n rest front bs e f =
    ap (λ i. overwrite i bs (front ++ blank n)) e
    ∙ ap (λ l. overwrite (length front) bs (front ++ l)) (blank-add (length bs) rest n f)
    ∙ overwrite_lem front bs (blank (length bs)) (blank rest) (sym (length-replicate (length bs) 0))
    ∙ sym (append_assoc front bs (blank rest))

-- A word of four bytes, and a padding that shortens nothing.
module _ (put_uint32 : ℕ → Bytes) (padded_len : ℕ → ℕ) (word : (n : ℕ) → length (put_uint32 n) ≡ 4)
    (padding : (n : ℕ) → n ≤ padded_len n) where
  abbrev pub header_bytes : ℕ → ℕ → ℕ → Bytes
  header_bytes id opcode size =
      put_uint32 id ++ put_uint32 (size_and_opcode put_uint32 padded_len size opcode)

  -- A string behind other bytes: its length with the NUL, itself, and the NUL with the padding.
  abbrev pub with_string : Bytes → Bytes → Bytes
  with_string front value =
      ((front ++ put_uint32 (length value + 1)) ++ value)
      ++ blank (padded_len (length value + 1) - length value)

  new_request-bytes :
      (id opcode arg_bytes : ℕ)
      → new_request put_uint32 padded_len id opcode arg_bytes
        ≡ header_bytes id opcode (8 + arg_bytes) ++ blank arg_bytes
  unfolding new_request
  new_request-bytes id opcode arg_bytes =
      ap (overwrite 4 (put_uint32 (size_and_opcode put_uint32 padded_len (8 + arg_bytes) opcode)))
        (fill 0 (8 + arg_bytes) (4 + arg_bytes) [] (put_uint32 id) refl (omega (arith, word id)))
      ∙ fill 4 (4 + arg_bytes) arg_bytes (put_uint32 id) _ (omega (arith, word id))
          (omega (arith, word (size_and_opcode put_uint32 padded_len (8 + arg_bytes) opcode)))

  put_string-bytes :
      (at n rest : ℕ) (front value : Bytes)
      → at ≡ length front
      → n ≡ string_size put_uint32 padded_len value + rest
      → put_string put_uint32 padded_len at value (front ++ blank n)
        ≡ with_string front value ++ blank rest
  unfolding put_string string_size
  put_string-bytes at n rest front value e f =
      let len = length value + 1 in
      let tail = padded_len len - length value in
      ap (overwrite (at + 4) value)
        (fill at n (padded_len len + rest) front (put_uint32 len) e (omega (arith, word len)))
      ∙ fill (at + 4) (padded_len len + rest) (tail + rest) (front ++ put_uint32 len) value
          (omega (arith, word len, length-append front (put_uint32 len)))
          (omega (arith, padding len))
      ∙ ap (λ l. ((front ++ put_uint32 len) ++ value) ++ l) (blank-add tail rest (tail + rest) refl)
      ∙ sym (append_assoc ((front ++ put_uint32 len) ++ value) (blank tail) (blank rest))

  length-with_string :
      (front value : Bytes)
      → length (with_string front value) ≡ length front + string_size put_uint32 padded_len value
  unfolding string_size
  length-with_string front value =
      let len = length value + 1 in
      let tail = padded_len len - length value in
      omega (
        arith,
        length-append ((front ++ put_uint32 len) ++ value) (blank tail),
        length-append (front ++ put_uint32 len) value,
        length-append front (put_uint32 len),
        length-replicate {A = ℕ} tail 0,
        word len,
        padding len,
      )

  length-header :
      (id opcode size : ℕ) (more : Bytes)
      → length (header_bytes id opcode size ++ more) ≡ 8 + length more
  length-header id opcode size more =
      let second = put_uint32 (size_and_opcode put_uint32 padded_len size opcode) in
      omega (
        arith,
        length-append (put_uint32 id ++ second) more,
        length-append (put_uint32 id) second,
        word id,
        word (size_and_opcode put_uint32 padded_len size opcode),
      )

  string_request-bytes :
      (proxy opcode : ℕ) (value : Bytes)
      → string_request put_uint32 padded_len proxy opcode value
        ≡ with_string
            (header_bytes proxy opcode (8 + string_size put_uint32 padded_len value))
            value
  unfolding string_request
  string_request-bytes proxy opcode value =
      let size = string_size put_uint32 padded_len value in
      ap (put_string put_uint32 padded_len 8 value) (new_request-bytes proxy opcode size)
      ∙ put_string-bytes 8 size 0 (header_bytes proxy opcode (8 + size)) value
          (omega (
            arith,
            length-header proxy opcode (8 + size) [],
            length-append (header_bytes proxy opcode (8 + size)) [],
          ))
          (omega arith)
      ∙ append-nil (with_string (header_bytes proxy opcode (8 + size)) value)

  -- What bind_global writes before the interface.
  abbrev pub bind_header : ℕ → ℕ → Bytes → Bytes
  bind_header registry name iface =
      header_bytes registry opcode_registry_bind
        (8 + (4 + string_size put_uint32 padded_len iface + 4 + 4))
      ++ put_uint32 name

  bind_global-bytes :
      (registry name : ℕ) (iface : Bytes) (version proxy : ℕ)
      → bind_global put_uint32 padded_len registry name iface version proxy
        ≡ (with_string (bind_header registry name iface) iface ++ put_uint32 version)
          ++ put_uint32 proxy
  unfolding bind_global
  bind_global-bytes registry name iface version proxy =
      let size = string_size put_uint32 padded_len iface in
      let front = bind_header registry name iface in
      let at = 12 + size in
      let front_length = length-header registry 0 (8 + (4 + size + 4 + 4)) (put_uint32 name) in
      let whole = with_string front iface in
      ap
        (λ r. overwrite (at + 4) (put_uint32 proxy) (
          overwrite at (put_uint32 version)
            (put_string put_uint32 padded_len 12 iface (overwrite 8 (put_uint32 name) r))))
        (new_request-bytes registry 0 (4 + size + 4 + 4))
      ∙ ap
          (λ r.
            overwrite (at + 4) (put_uint32 proxy)
              (overwrite at (put_uint32 version) (put_string put_uint32 padded_len 12 iface r)))
          (fill 8 (4 + size + 4 + 4) (size + 8) (header_bytes registry 0 (8 + (4 + size + 4 + 4)))
            (put_uint32 name)
            (omega (
              arith,
              length-header registry 0 (8 + (4 + size + 4 + 4)) [],
              length-append (header_bytes registry 0 (8 + (4 + size + 4 + 4))) [],
            ))
            (omega (arith, word name)))
      ∙ ap (λ r. overwrite (at + 4) (put_uint32 proxy) (overwrite at (put_uint32 version) r))
          (put_string-bytes 12 (size + 8) 8 front iface (omega (arith, front_length, word name))
            refl)
      ∙ ap (overwrite (at + 4) (put_uint32 proxy)) (
          fill at 8 4 whole (put_uint32 version)
            (omega (arith, length-with_string front iface, front_length, word name))
            (omega (arith, word version)))
      ∙ fill (at + 4) 4 0 (whole ++ put_uint32 version) (put_uint32 proxy)
          (omega (
            arith,
            length-append whole (put_uint32 version),
            length-with_string front iface,
            front_length,
            word name,
            word version,
          ))
          (omega (arith, word proxy))
      ∙ append-nil ((whole ++ put_uint32 version) ++ put_uint32 proxy)

  -- A string in a request is its length with the NUL, its bytes, and zeros up to the padded size, and
  -- nothing that is written overlaps: if a word has four bytes and padding shortens nothing, the
  -- requests that are built in place are the concatenations of their arguments behind the header.
  pub requests-bytes :
      (object name opcode : ℕ) (value : Bytes) (version proxy : ℕ)
      → (bind_global put_uint32 padded_len object name value version proxy
          ≡ (with_string (bind_header object name value) value ++ put_uint32 version)
            ++ put_uint32 proxy)
        × (string_request put_uint32 padded_len object opcode value
            ≡ with_string
                (header_bytes object opcode (8 + string_size put_uint32 padded_len value))
                value)
  requests-bytes object name opcode value version proxy =
      (bind_global-bytes object name value version proxy, string_request-bytes object opcode value)
