-- ===== src/Client/Windows/Packets.antt =====
-- client/client.go: the packets on windows that exist.
use go_xpra.Prelude.{
  ◌≡◌, refl, ◌&&◌, length, leb, ltb, not, ◌||◌, Bool-cases, Option-cases, inl, inr, ℕ,
}
use go_xpra.Prelude.Int.{ℤ, pos, leb_ℤ, ltb_ℤ}
use go_xpra.Prelude.Bytes.{Bytes, codes, bytes_eq}
use go_xpra.Prelude.Result.{Result-cases}
use go_xpra.Prelude.Table.{lookup, int_key}
use go_xpra.Rencode.Value.{Entries}
use go_xpra.Protocol.Packet.{Packet, int, str, bytes, bool, dict_has}
use go_xpra.Client.Image.{max_window_icon_dimension, decode_window_icon_png}
use go_xpra.Client.State.{Platform, Session}
use go_xpra.Client.Windows.{
  handle_lost_window, handle_move_resize, set_title, handle_metadata, handle_raise_window,
  handle_bell, handle_show_desktop, set_icon, handle_known_icon, handle_window_icon, metadata_at,
}
use go_xpra.Client.Windows.Linked.{live, same_windows, live-minimize_all}
use go_xpra.Client.Windows.Keeps.{Linked, forget_stale_lem, apply_states-Linked}

pub handle_lost_window-Linked :
    (packet : Packet) (s : Session) → Linked s → Linked (handle_lost_window packet s)
unfolding handle_lost_window
handle_lost_window-Linked packet s k = (forget_stale_lem (int packet (pos 1)) s k).0

pub handle_move_resize-Linked :
    (packet : Packet) (s : Session) → Linked s → Linked (handle_move_resize packet s)
unfolding handle_move_resize Linked live
handle_move_resize-Linked packet s k =
    elim (Option-cases (lookup s.table.windows (int packet (pos 1)))) [
      | inl e ↦ rw (e, handle_move_resize) k
      | inr (w, e) ↦ rw (e, handle_move_resize) (same_windows s.table s.log _ (λ u. refl) k)
    ]

pub handle_raise_window-Linked :
    (packet : Packet) (s : Session) → Linked s → Linked (handle_raise_window packet s)
unfolding handle_raise_window Linked live
handle_raise_window-Linked packet s k =
    elim (Option-cases (lookup s.table.windows (int packet (pos 1)))) [
      | inl e ↦ rw (e, handle_raise_window) k
      | inr (w, e) ↦ rw (e, handle_raise_window) (same_windows s.table s.log _ (λ u. refl) k)
    ]

pub handle_bell-Linked : (packet : Packet) (s : Session) → Linked s → Linked (handle_bell packet s)
unfolding handle_bell Linked live
handle_bell-Linked packet s k = same_windows s.table s.log _ (λ u. refl) k

pub handle_show_desktop-Linked :
    (packet : Packet) (s : Session) → Linked s → Linked (handle_show_desktop packet s)
unfolding handle_show_desktop Linked
handle_show_desktop-Linked packet s k =
    same_windows s.table s.log _
      (live-minimize_all (leb 2 (length packet) && bool packet (pos 1)) s.table.windows s.log) k

set_title-Linked :
    (w : ℕ) (metadata : Entries) (s : Session)
    → Linked s
    → Linked (set_title w metadata s) × ((set_title w metadata s).table ≡ s.table)
unfolding set_title Linked live
set_title-Linked w metadata s k = elim (Bool-cases (dict_has metadata (codes "title"))) [
  | inl e ↦ rw (e, set_title) (same_windows s.table s.log _ (λ u. refl) k, refl)
  | inr e ↦ rw (e, set_title) (k, refl)
]

pub handle_metadata-Linked :
    (p : Platform) (packet : Packet) (s : Session) → Linked s → Linked (handle_metadata p packet s)
unfolding handle_metadata
handle_metadata-Linked p packet s k =
    let wid = int packet (pos 1) in
    let metadata = metadata_at packet (pos 2) in
    elim (Option-cases (lookup s.table.windows wid)) [
      | inl e ↦ rw (e, handle_metadata) k
      | inr (w, e) ↦
          let (k1, same) = set_title-Linked w metadata s k in
          rw (e, handle_metadata)
            (apply_states-Linked p wid w metadata (set_title w metadata s) (rw same e) k1)
    ]

set_icon-Linked :
    (p : Platform) (w : ℕ) (area : Bytes) (width height : ℤ) (s : Session)
    → Linked s
    → Linked (set_icon p w area width height s)
unfolding set_icon Linked live
set_icon-Linked p w area width height s k =
    elim (Bool-cases (
      leb_ℤ width (pos 0)
      || leb_ℤ height (pos 0)
      || ltb_ℤ max_window_icon_dimension width
      || ltb_ℤ max_window_icon_dimension height)) [
        | inl e ↦ rw (e, set_icon) k
        | inr e ↦
            elim (Result-cases
              (decode_window_icon_png p.decode_config p.decode area width height)) [
                | inl (x, f) ↦ rw (e, f, set_icon) k
                | inr (icon, f) ↦ rw (e, f, set_icon) (same_windows s.table s.log _ (λ u. refl) k)
              ]
      ]

pub handle_window_icon-Linked :
    (p : Platform) (packet : Packet) (s : Session)
    → Linked s
    → Linked (handle_window_icon p packet s)
unfolding handle_window_icon handle_known_icon
handle_window_icon-Linked p packet s k = elim (Bool-cases (ltb (length packet) 6)) [
  | inl e ↦ rw (e, handle_window_icon) k
  | inr e ↦ elim (Option-cases (lookup s.table.windows (int packet (pos 1)))) [
    | inl f ↦ rw (e, f, handle_window_icon) k
    | inr (w, f) ↦ elim (Bool-cases (not (bytes_eq (str packet (pos 4)) (codes "png")))) [
      | inl g ↦ rw (e, f, g, handle_window_icon) k
      | inr g ↦ elim (Option-cases (bytes packet (pos 5))) [
        | inl h ↦ rw (e, f, g, h, handle_window_icon) k
        | inr (area, h) ↦
            rw (e, f, g, h, handle_window_icon)
              (set_icon-Linked p w area (int packet (pos 2)) (int packet (pos 3)) s k)
      ]
    ]
  ]
]
