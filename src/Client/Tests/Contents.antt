-- ===== src/Client/Tests/Contents.antt =====
-- client/: images, the clipboard and challenges, at concrete inputs.
use go_xpra.Prelude.{◌≡◌, ◌⊎◌, refl, true, [], ◌∷◌, none, some}
use go_xpra.Prelude.Int.{pos, ◌+ℤ◌}
use go_xpra.Prelude.Bytes.{Bytes, codes, bytes_eq}
use go_xpra.Prelude.Result.{ok}
use go_xpra.Prelude.Table.{lookup}
use go_xpra.Rencode.Value.{Value}
use go_xpra.Protocol.Packet.{Packet, at, or_nil, as_str, str}
use go_xpra.Ui.Image.{Cursor, validate_cursor}
use go_xpra.Client.Image.{
  Format, Picture, format_of, all_pixels, row_pixels, bgrx_pixel, bgra_pixel, opaque_pixel,
  alpha_pixel, high_byte, outside_limit, differs, decode_image, decode_sized, draw_picture,
  decode_cursor_png, decode_alpha_png, alpha_sized, alpha_picture, with_hotspot,
}
use go_xpra.Client.Image.Laws.{IsDrawn, decode_image_lem}
use go_xpra.Client.Image.Alpha.{validate_cursor-decode_cursor_png}
use go_xpra.Client.Clipboard.Text.{
  clipboard_wire_text, value_text, data_text, is_clipboard_text_target, contains_string, utf8_valid,
  valid_from, following, within, latin_text, rune_bytes,
}
use go_xpra.Client.Clipboard.Text.Valid.{clipboard_wire_text-valid}
use go_xpra.Client.Clipboard.Kept.{Kept}
use go_xpra.Client.Hello.{advertised_codings, digest_name}
use go_xpra.Client.Hello.Codings.{layout-advertised_codings}
use go_xpra.Client.Draw.{draw_of, layout, rgb_layout, image_layout}
use go_xpra.Client.Control.{handle_challenge}
use go_xpra.Client.Control.Authentication.{Answers}
use go_xpra.Client.Run.{no_steps, one_more, packet}
use go_xpra.Client.Run.Challenge.{handle_challenge-Steps}
use go_xpra.Client.Dispatch.{handle_packet}
use go_xpra.Client.State.{Session}
use go_xpra.Client.Tests.{desk, machine, grey, first_session, draw_packet}

abbrev grey_pixels : Bytes
grey_pixels = 128 ∷ 128 ∷ 128 ∷ 255 ∷ 128 ∷ 128 ∷ 128 ∷ 255 ∷ []

decode_grey :
    decode_image desk.decode_config desk.decode (codes "png") [] (pos 2) (pos 1)
    ≡ ok (grey_pixels, pos 8)
unfolding decode_image decode_sized draw_picture format_of bytes_eq outside_limit differs all_pixels
    row_pixels bgrx_pixel opaque_pixel high_byte ◌+ℤ◌
decode_grey = refl

decode_image_lem_example :
    (f : Format) × (format_of (codes "png") ≡ some f)
    × ((image : Picture) × (some grey ≡ some image)
        × IsDrawn image f (pos 2) (pos 1) grey_pixels (pos 8))
decode_image_lem_example =
    decode_image_lem desk.decode_config desk.decode (codes "png") [] (pos 2) (pos 1) grey_pixels
      (pos 8) decode_grey

abbrev grey_cursor : Cursor
grey_cursor = record {
  pixels = grey_pixels;
  width = pos 2;
  height = pos 1;
  hotspot_x = pos 0;
  hotspot_y = pos 0;
}

decode_grey_cursor : decode_cursor_png desk.decode_config desk.decode [] ≡ ok grey_cursor
unfolding decode_cursor_png decode_alpha_png alpha_sized alpha_picture outside_limit differs
    all_pixels row_pixels bgra_pixel alpha_pixel high_byte ◌+ℤ◌
decode_grey_cursor = refl

validate_cursor-decode_cursor_png_example :
    validate_cursor (with_hotspot (pos 70) (pos 3) grey_cursor) ≡ none
validate_cursor-decode_cursor_png_example =
    validate_cursor-decode_cursor_png desk.decode_config desk.decode [] grey_cursor (pos 70) (pos 3)
      decode_grey_cursor

-- A byte that is not UTF-8 is read as Latin-1.
latin :
    clipboard_wire_text (codes "STRING") (pos 8) (codes "bytes") (Value.binary (233 ∷ []))
    ≡ some (195 ∷ 169 ∷ [])
unfolding clipboard_wire_text value_text data_text is_clipboard_text_target contains_string
    utf8_valid valid_from following within latin_text rune_bytes bytes_eq
latin = refl

clipboard_wire_text-valid_example : utf8_valid (195 ∷ 169 ∷ []) ≡ true
clipboard_wire_text-valid_example =
    clipboard_wire_text-valid (codes "STRING") (pos 8) (codes "bytes") (Value.binary (233 ∷ []))
      (195 ∷ 169 ∷ []) latin

abbrev contents_packet : Packet
contents_packet =
    Value.text (codes "clipboard-contents")
    ∷ Value.int (pos 1)
    ∷ Value.text (codes "CLIPBOARD")
    ∷ Value.text (codes "STRING")
    ∷ Value.int (pos 8)
    ∷ Value.text (codes "bytes")
    ∷ Value.binary (97 ∷ [])
    ∷ []

first-Kept : Kept first_session
unfolding Kept lookup
first-Kept = record {
  current = λ id r e. absurd cc;
  numbered = λ id r e. absurd cc;
  valid = λ e. absurd cc;
  negotiated = λ e. absurd cc;
}

abbrev challenge_packet : Packet
challenge_packet =
    Value.text (codes "challenge")
    ∷ Value.binary (5 ∷ [])
    ∷ Value.nil
    ∷ Value.text digest_name
    ∷ Value.text digest_name
    ∷ Value.text []
    ∷ []

png_offered : contains_string advertised_codings (draw_of draw_packet).coding ≡ true
unfolding contains_string bytes_eq draw_of str at as_str or_nil
png_offered = refl

layout-advertised_codings_example :
    (layout desk (draw_of draw_packet) [] ≡ rgb_layout (draw_of draw_packet) [])
    ⊎ (layout desk (draw_of draw_packet) [] ≡ image_layout desk (draw_of draw_packet) [])
layout-advertised_codings_example =
    layout-advertised_codings desk (draw_of draw_packet) [] png_offered

-- A ping comes between the two challenges.
abbrev ping_between : Packet
ping_between = Value.text (codes "ping") ∷ Value.int (pos 7) ∷ []

abbrev answered_session : Session
answered_session = handle_challenge desk machine challenge_packet first_session

abbrev pinged_session : Session
pinged_session = handle_packet desk machine ping_between answered_session

handle_challenge-Steps_example :
    Answers desk machine challenge_packet first_session answered_session
    × ((handle_challenge desk machine challenge_packet pinged_session).log ≡ pinged_session.log)
    × ((handle_challenge desk machine challenge_packet pinged_session).quit ≡ true)
handle_challenge-Steps_example =
    handle_challenge-Steps desk machine challenge_packet challenge_packet first_session
      pinged_session refl (one_more answered_session pinged_session no_steps (packet ping_between))
