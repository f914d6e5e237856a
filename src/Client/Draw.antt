-- ===== src/Client/Draw.antt =====
-- client/client.go: `handleDraw`, which paints one damage rectangle and acknowledges it.
pub mod Answers
use go_xpra.Prelude.{
  ℕ, ◌/◌, Bool, true, false, ◌||◌, List, [], ◌∷◌, ◌++◌, Option, none, some, length, if◌then◌else◌,
}
use go_xpra.Prelude.Int.{ℤ, pos, negsuc, pos_part, leb_ℤ, ltb_ℤ}
use go_xpra.Prelude.Bytes.{Bytes, codes, bytes_eq}
use go_xpra.Prelude.Result.{Result, ok, err}
use go_xpra.Prelude.Table.{lookup, int_key}
use go_xpra.Rencode.Value.{Value, Entries}
use go_xpra.Protocol.Packet.{Packet, at, int, str, bytes, find, or_nil, dict_str, dict_has}
use go_xpra.Client.Image.{decode_image, format_of}
use go_xpra.Client.Mmap.Area.{MmapArea, Release, read_chunks, release}
use go_xpra.Client.State.{Action, painted, released, Platform, Session, act, send}
use go_xpra.Client.Windows.{metadata_at}

abbrev pub decode_error : ℤ
decode_error = negsuc 0

abbrev pub decode_not_found : ℤ
decode_not_found = negsuc 1

pub record Draw : Type 0 where
  pub wid : ℤ
  pub x : ℤ
  pub y : ℤ
  pub width : ℤ
  pub height : ℤ
  pub coding : Bytes
  pub sequence : ℤ
  pub rowstride : ℤ
  pub options : Entries
  -- elements 7 of the packet, as they stand and as bytes
  pub chunks : Value
  pub pixels : Option Bytes

unfoldable pub draw_of : Packet → Draw
draw_of packet = record {
  wid = int packet (pos 1);
  x = int packet (pos 2);
  y = int packet (pos 3);
  width = int packet (pos 4);
  height = int packet (pos 5);
  coding = str packet (pos 6);
  sequence = int packet (pos 8);
  rowstride = int packet (pos 9);
  options = metadata_at packet (pos 10);
  chunks = at packet (pos 7);
  pixels = bytes packet (pos 7);
}

-- The packet numbers its fields in two orders.
unfoldable pub ack_packet : Bool → Draw → ℤ → Bytes → List Value
ack_packet compatible d time message =
    if compatible
    then Value.text (codes "window-draw-ack")
      ∷ Value.int d.sequence
      ∷ Value.int d.wid
      ∷ Value.int d.width
      ∷ Value.int d.height
      ∷ Value.int time
      ∷ Value.text message
      ∷ []
    else Value.text (codes "window-draw-ack")
      ∷ Value.int d.wid
      ∷ Value.int d.width
      ∷ Value.int d.height
      ∷ Value.int d.sequence
      ∷ Value.int time
      ∷ Value.text message
      ∷ []

-- `releasePixels`: nothing, or the closure of `readChunks`.
unfoldable pub release_area :
    (ℕ → Bytes) → Release → Option MmapArea → Session → Option Release × Session
release_area put r none s = (some r, s)
release_area put r (some a) s =
    let (after, contents) = release put r a.contents in
    (
      some after,
      record s {
        mmap = some (record a { contents = contents });
        log = if r.released then s.log else released r.end ∷ s.log;
      },
    )

unfoldable pub release_pixels : (ℕ → Bytes) → Option Release → Session → Option Release × Session
release_pixels put none s = (none, s)
release_pixels put (some r) s = release_area put r s.mmap s

unfoldable pub options_chunks : Value → Value → Value
options_chunks Value.nil fallback = fallback
options_chunks chunks fallback = chunks

unfoldable pub is_rgb : Bytes → Bool
is_rgb coding =
    bytes_eq coding (codes "rgb")
    || bytes_eq coding (codes "rgb24")
    || bytes_eq coding (codes "rgb32")

unfoldable pub is_image : Bytes → Bool
is_image coding =
    bytes_eq coding (codes "jpeg")
    || bytes_eq coding (codes "png")
    || bytes_eq coding (codes "png/P")
    || bytes_eq coding (codes "png/L")
    || bytes_eq coding (codes "webp")

unfoldable pub or_format : Bytes → Bytes → Bytes
or_format [] fallback = fallback
or_format format fallback = format

-- What a raw layout is called where the packet does not say.
unfoldable pub rgb_fallback : Bytes → Bytes
rgb_fallback coding =
    if bytes_eq coding (codes "rgb24")
    then codes "RGB"
    else if bytes_eq coding (codes "rgb32")
    then codes "RGBX"
    else []

unfoldable pub mmap_layout : Draw → Bytes → Result Bytes (Bytes × ℤ × Bytes)
mmap_layout d pixels =
    if leb_ℤ d.rowstride (pos 0)
      || leb_ℤ d.height (pos 0)
      || ltb_ℤ (pos (length pixels / pos_part d.height)) d.rowstride
    then err (codes "mmap pixel data is smaller than its rowstride and height")
    else ok (pixels, d.rowstride, or_format (dict_str d.options (codes "rgb_format")) (codes "RGB"))

unfoldable pub rgb_layout : Draw → Bytes → Result Bytes (Bytes × ℤ × Bytes)
rgb_layout d pixels =
    if dict_has d.options (codes "lz4")
    then err (codes "unexpected lz4 compressed pixels")
    else if dict_has d.options (codes "zstd")
    then err (codes "unexpected zstd compressed pixels")
    else ok (
      pixels,
      d.rowstride,
      or_format (dict_str d.options (codes "rgb_format")) (rgb_fallback d.coding),
    )

module _ (p : Platform) where
  unfoldable pub image_layout : Draw → Bytes → Result Bytes (Bytes × ℤ × Bytes)
  image_layout d pixels =
      elim (decode_image p.decode_config p.decode d.coding pixels d.width d.height) [
        | err e ↦ err (p.describe_image e)
        | ok (decoded, rowstride) ↦ ok (decoded, rowstride, codes "BGRX")
      ]

  -- The switch over the coding: pixels, row stride and format, or the message of the answer.
  unfoldable pub layout : Draw → Bytes → Result Bytes (Bytes × ℤ × Bytes)
  layout d pixels =
      if bytes_eq d.coding (codes "mmap")
      then mmap_layout d pixels
      else if is_rgb d.coding
      then rgb_layout d pixels
      else if is_image d.coding
      then image_layout d pixels
      else err (codes "unsupported encoding " ++ d.coding)

  -- `ack`, and then the return, which runs the deferred release once more.
  unfoldable pub answer : Draw → Option Release → ℤ → Bytes → Session → Session
  answer d r time message s =
      let (after, t) = release_pixels p.put r s in
      (release_pixels p.put after (send (ack_packet p.compatible d time message) t)).1

  unfoldable pub paint_time : ℤ → ℤ
  paint_time elapsed = if leb_ℤ elapsed (pos 0) then pos 1 else elapsed

  unfoldable pub paint : Draw → Option Release → ℕ → Bytes → ℤ → Bytes → Session → Session
  paint d r window pixels rowstride format s =
      let t = act (painted window d.x d.y d.width d.height pixels rowstride format) s in
      if p.fails t.log
      then answer d r decode_error (p.error_text t.log) t
      else answer d r (paint_time (p.elapsed t.log)) [] t

  unfoldable pub draw_pixels : Draw → Option Release → ℕ → Option Bytes → Session → Session
  draw_pixels d r window none s = answer d r decode_error (codes "no pixel data") s
  draw_pixels d r window (some pixels) s = elim (layout d pixels) [
    | err message ↦ answer d r decode_error message s
    | ok (decoded, rowstride, format) ↦ paint d r window decoded rowstride format s
  ]

  unfoldable pub draw_window : Draw → Option Release → Option Bytes → Session → Session
  draw_window d r pixels s = elim (lookup s.table.windows d.wid) [
    | none ↦ answer d r decode_not_found (codes "window not found") s
    | some window ↦ draw_pixels d r window pixels s
  ]

  unfoldable pub draw_mmap : Draw → Option MmapArea → Session → Session
  draw_mmap d none s =
      answer d none decode_error (codes "mmap screen updates were not negotiated") s
  draw_mmap d (some a) s =
      elim (read_chunks a (options_chunks (or_nil (find d.options (codes "chunks"))) d.chunks)) [
        | err e ↦ answer d none decode_error (p.describe_chunks e) s
        | ok (pixels, r) ↦ draw_window d (some r) (some pixels) s
      ]

  unfoldable pub handle_draw : Packet → Session → Session
  handle_draw packet s =
      let d = draw_of packet in
      if bytes_eq d.coding (codes "mmap")
      then draw_mmap d s.mmap s
      else draw_window d none d.pixels s
