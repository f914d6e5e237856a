-- ===== src/Client/Hello/Display.antt =====
-- client/client.go: `sendHello`, and the monitors in it.
use go_xpra.Prelude.{ℕ, suc, true, false, List, [], ◌∷◌, ◌++◌, Option, none, some, if◌then◌else◌}
use go_xpra.Prelude.Int.{ℤ, pos, ltb_ℤ}
use go_xpra.Prelude.Bytes.{Bytes, codes}
use go_xpra.Rencode.Value.{
  Value, Entries, IntEntries, no_values, item, no_entries, no_int_entries, int_entry,
}
use go_xpra.Ui.Monitor.{Rectangle, Monitor, valid}
use go_xpra.Client.Monitor.{usable_monitors}
use go_xpra.Client.Mmap.Area.{MmapArea}
use go_xpra.Client.Mmap.Session.{hello_caps}
use go_xpra.Client.State.{Platform, Session, send, or_default}
use go_xpra.Client.Hello.{Host, build_hello, set_all, yes}

unfoldable pub rectangle_value : Rectangle → Value
rectangle_value r = Value.list (
    item (Value.int r.x)
      (item (Value.int r.y) (item (Value.int r.width) (item (Value.int r.height) no_values))))

-- Optional entries of a monitor: a text that is not empty, a number that is positive.
abbrev pub text_cap : Bytes → Bytes → List (Bytes × Value)
text_cap key [] = []
text_cap key (c ∷ text) = (key, Value.text (c ∷ text)) ∷ []

abbrev pub number_cap : Bytes → ℤ → List (Bytes × Value)
number_cap key n = if ltb_ℤ (pos 0) n then (key, Value.int n) ∷ [] else []

unfoldable pub monitor_info : Monitor → Entries
monitor_info m =
    set_all
      (((codes "geometry", rectangle_value m.geometry) ∷ [])
        ++ (if valid m.work_area then (codes "workarea", rectangle_value m.work_area) ∷ [] else [])
        ++ text_cap (codes "name") m.name
        ++ text_cap (codes "manufacturer") m.manufacturer
        ++ text_cap (codes "model") m.model
        ++ text_cap (codes "subpixel-layout") m.subpixel_layout
        ++ number_cap (codes "width-mm") m.width_mm
        ++ number_cap (codes "height-mm") m.height_mm
        ++ number_cap (codes "refresh-rate") m.refresh_rate
        ++ number_cap (codes "scale-factor") m.scale_factor
        ++ ((codes "primary", Value.bool m.primary) ∷ []))
      no_entries

-- The loop over the monitors, with `count` of them numbered.
unfoldable pub numbered_caps : ℕ → List Monitor → IntEntries
numbered_caps count [] = no_int_entries
numbered_caps count (m ∷ ms) = elim (valid m.geometry) [
  | true ↦ int_entry (pos count) (Value.dict (monitor_info m)) (numbered_caps (suc count) ms)
  | false ↦ numbered_caps count ms
]

unfoldable pub monitor_caps : List Monitor → IntEntries
monitor_caps = numbered_caps 0

unfoldable pub monitors_cap : List Monitor → List (Bytes × Value)
monitors_cap ms = elim (monitor_caps ms) [
  | no_int_entries ↦ []
  | int_entry i v es ↦ (codes "monitors", Value.map_int (int_entry i v es)) ∷ []
]

abbrev pub size_cap : Option (ℤ × ℤ) → List (Bytes × Value)
size_cap none = []
size_cap (some (width, height)) =
    (codes "desktop_size", Value.list (item (Value.int width) (item (Value.int height) no_values)))
    ∷ []

unfoldable pub display_caps : Option (ℤ × ℤ) → List Monitor → Entries
display_caps size ms =
    set_all
      (((codes "show-desktop", yes) ∷ (codes "monitor-relative", yes) ∷ [])
        ++ size_cap size
        ++ monitors_cap ms)
      no_entries

module _ (p : Platform) (h : Host) where
  -- The area that is offered, if there is one.
  unfoldable pub mmap_cap : Option MmapArea → List (Bytes × Value)
  mmap_cap none = []
  mmap_cap (some a) = (codes "mmap", Value.dict (hello_caps p.compatible h.mmap_file a)) ∷ []

  unfoldable pub response_caps : Bytes → Bytes → List (Bytes × Value)
  response_caps [] salt = []
  response_caps (c ∷ response) salt =
      (codes "challenge_response", Value.text (c ∷ response))
      ∷ (codes "challenge_client_salt", Value.binary salt)
      ∷ []

  unfoldable pub hello_packet : Bytes → Bytes → Session → List Value
  hello_packet response salt s =
      Value.text (codes "hello")
      ∷ Value.dict (
          set_all
            (((codes "display", Value.dict (display_caps (p.desktop_size s.log) s.monitors)) ∷ [])
              ++ mmap_cap s.mmap
              ++ response_caps response salt)
            (build_hello p.compatible h s.log s.username s.clip.present s.states))
      ∷ []

  -- The states and the monitors that the hello reports are the ones the session works with.
  unfoldable pub greeted : Session → Session
  greeted s = record s {
    states = p.window_states;
    monitors = usable_monitors (or_default [] (p.monitors s.log));
  }

  -- The caller asks whether the packet was taken.
  unfoldable pub send_hello : Bytes → Bytes → Session → Session
  send_hello response salt s = send (hello_packet response salt (greeted s)) (greeted s)
