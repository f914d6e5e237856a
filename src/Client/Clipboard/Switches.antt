-- ===== src/Client/Clipboard/Switches.antt =====
-- client/clipboard.go: what switches the clipboard on and off, and what then leaves the client.
use go_xpra.Prelude.{
  ◌≡◌, inl, inr, refl, subst, Bool, true, false, ◌||◌, ◌&&◌, not, [], ◌∷◌, Option, none, some,
  length, leb, ltb, Bool-cases, Option-cases,
}
use go_xpra.Prelude.Int.{pos}
use go_xpra.Prelude.Bytes.{Bytes, codes, bytes_eq}
use go_xpra.Prelude.Table.{int_key}
use go_xpra.Rencode.Value.{Value, Entries}
use go_xpra.Protocol.Packet.{Packet, at, int, bool, dict_str, dict_bool, dict_has}
use go_xpra.Client.State.{Platform, Clip, Session, send}
use go_xpra.Client.Clipboard.Text.{clipboard_selection, contains_string, value_strings}
use go_xpra.Client.Clipboard.{
  with_clip, no_clipboard, directions, other_selections, enable_clipboard, with_clipboard_caps,
  configure_clipboard,
}
use go_xpra.Client.Clipboard.Kept.{IsKept, Kept, offer_clipboard-Kept, no_requests}
use go_xpra.Client.Clipboard.Rounds.{forget_request-Kept}
use go_xpra.Client.Clipboard.Remote.{
  handle_clipboard_contents_none, set_ready, handle_clipboard_enable_selections,
  handle_clipboard_status,
}

pub both-true : (a b : Bool) → (a && b) ≡ true → (a ≡ true) × (b ≡ true)
both-true true b e = (refl, e)
both-true false b e = cc

pub neither : (a b : Bool) → (a || b) ≡ false → (a ≡ false) × (b ≡ false)
neither false b e = (refl, e)
neither true b e = cc

pub not-false : (a : Bool) → not a ≡ false → a ≡ true
not-false true e = refl
not-false false e = cc

set_ready-Kept :
    (ready : Bool) (s : Session)
    → Kept s
    → (ready ≡ true → (s.clip.present ≡ true) × ((s.clip.can_send || s.clip.can_receive) ≡ true))
    → Kept (set_ready ready s)
unfolding Kept set_ready with_clip
set_ready-Kept ready s k h = record {
  current = k.current;
  numbered = k.numbered;
  valid = k.valid;
  negotiated = h;
}

-- A direction that the server offers lets at least one side send.
directions-open :
    (d : Bytes) (allowed : Bool × Bool)
    → directions d ≡ some allowed
    → (allowed.0 || allowed.1) ≡ true
unfolding directions
directions-open d allowed e = elim (Bool-cases (bytes_eq d [] || bytes_eq d (codes "both"))) [
  | inl f ↦ open_pair (true, true) allowed refl (rw (f, directions) at e)
  | inr f ↦ elim (Bool-cases (bytes_eq d (codes "to-server"))) [
    | inl g ↦ open_pair (true, false) allowed refl (rw (f, g, directions) at e)
    | inr g ↦ elim (Bool-cases (bytes_eq d (codes "to-client"))) [
      | inl h ↦ open_pair (false, true) allowed refl (rw (f, g, h, directions) at e)
      | inr h ↦
          let found : Option (Bool × Bool) = some allowed in
          let a : none ≡ found = rw (f, g, h, directions) at e in absurd cc
    ]
  ]
]
  where
    open_pair :
        (a allowed : Bool × Bool)
        → (a.0 || a.1) ≡ true
        → some a ≡ some allowed
        → (allowed.0 || allowed.1) ≡ true
    open_pair a allowed t e =
        let same : a ≡ allowed = cc in subst (λ (b : Bool × Bool). (b.0 || b.1) ≡ true) same t

enabled_clip :
    (c : Clip) (to_server to_client : Bool)
    → IsKept c
    → c.present ≡ true
    → (to_server || to_client) ≡ true
    → IsKept (record c { ready = true; can_send = to_server; can_receive = to_client })
enabled_clip c to_server to_client k here way = record {
  current = k.current;
  numbered = k.numbered;
  valid = k.valid;
  negotiated = λ q. (here, way);
}

enable_clipboard-Kept :
    (p : Platform) (allowed : Bool × Bool) (s : Session)
    → Kept s
    → s.clip.present ≡ true
    → (allowed.0 || allowed.1) ≡ true
    → Kept (enable_clipboard p allowed s)
unfolding enable_clipboard Kept with_clip
enable_clipboard-Kept p (to_server, to_client) s k here way =
    offer_clipboard-Kept p
      (send
        (Value.text (codes "clipboard-enable-selections")
          ∷ Value.texts (clipboard_selection ∷ [])
          ∷ [])
        (with_clip (record s.clip { ready = true; can_send = to_server; can_receive = to_client })
          s))
      (enabled_clip s.clip to_server to_client k here way)

with_clipboard_caps-Kept :
    (p : Platform) (caps : Option Entries) (s : Session)
    → Kept s
    → Kept (with_clipboard_caps p caps s)
unfolding with_clipboard_caps
with_clipboard_caps-Kept p none s k = k
with_clipboard_caps-Kept p (some caps) s k =
    elim (Bool-cases (
      not s.clip.present
      || (dict_has caps (codes "enabled") && not (dict_bool caps (codes "enabled")))
      || other_selections caps)) [
        | inl e ↦ rw (e, with_clipboard_caps) k
        | inr e ↦ elim (Option-cases (directions (dict_str caps (codes "direction")))) [
          | inl f ↦ rw (e, f, with_clipboard_caps) k
          | inr (allowed, f) ↦
              let (g, _) =
                neither
                  (not s.clip.present
                    || (dict_has caps (codes "enabled") && not (dict_bool caps (codes "enabled"))))
                  (other_selections caps) e in
              let (h, _) =
                neither (not s.clip.present)
                  (dict_has caps (codes "enabled") && not (dict_bool caps (codes "enabled"))) g in
              rw (e, f, with_clipboard_caps)
                (enable_clipboard-Kept p allowed s k (not-false s.clip.present h)
                  (directions-open (dict_str caps (codes "direction")) allowed f))
        ]
      ]

pub configure_clipboard-Kept :
    (p : Platform) (caps : Option Entries) (s : Session)
    → Kept s
    → Kept (configure_clipboard p caps s)
unfolding configure_clipboard Kept with_clip no_clipboard
configure_clipboard-Kept p caps s k =
    with_clipboard_caps-Kept p caps (with_clip (no_clipboard s.clip) s)
      (no_requests s.clip s.clip.generation false false false k (λ q. absurd cc))

pub handle_clipboard_contents_none-Kept :
    (packet : Packet) (s : Session) → Kept s → Kept (handle_clipboard_contents_none packet s)
unfolding handle_clipboard_contents_none
handle_clipboard_contents_none-Kept packet s k = elim (Bool-cases (leb 2 (length packet))) [
  | inl e ↦ rw (e, handle_clipboard_contents_none) (forget_request-Kept (int packet (pos 1)) s k)
  | inr e ↦ rw (e, handle_clipboard_contents_none) k
]

pub handle_clipboard_enable_selections-Kept :
    (p : Platform) (packet : Packet) (s : Session)
    → Kept s
    → Kept (handle_clipboard_enable_selections p packet s)
unfolding handle_clipboard_enable_selections
handle_clipboard_enable_selections-Kept p packet s k =
    elim (Bool-cases (
      ltb (length packet) 2
      || not (contains_string (value_strings (at packet (pos 1))) clipboard_selection))) [
        | inl e ↦
            rw (e, handle_clipboard_enable_selections) (set_ready-Kept false s k (λ q. absurd cc))
        | inr e ↦ elim (Bool-cases (s.clip.present && (s.clip.can_send || s.clip.can_receive))) [
          | inl f ↦
              rw (e, f, handle_clipboard_enable_selections)
                (offer_clipboard-Kept p (set_ready true s) (
                  set_ready-Kept true s k
                    (λ q. both-true s.clip.present (s.clip.can_send || s.clip.can_receive) f)))
          | inr f ↦ rw (e, f, handle_clipboard_enable_selections) k
        ]
      ]

pub handle_clipboard_status-Kept :
    (p : Platform) (packet : Packet) (s : Session)
    → Kept s
    → Kept (handle_clipboard_status p packet s)
unfolding handle_clipboard_status with_clip Kept
handle_clipboard_status-Kept p packet s k = elim (Bool-cases (ltb (length packet) 2)) [
  | inl e ↦ rw (e, handle_clipboard_status) k
  | inr e ↦
      elim (Bool-cases
        (bool packet (pos 1) && s.clip.present && (s.clip.can_send || s.clip.can_receive))) [
          | inl f ↦
              let (g, h) =
                both-true (bool packet (pos 1) && s.clip.present)
                  (s.clip.can_send || s.clip.can_receive) f in
              rw (e, f, handle_clipboard_status)
                (offer_clipboard-Kept p (set_ready true s) (
                  set_ready-Kept true s k
                    (λ q. ((both-true (bool packet (pos 1)) s.clip.present g).1, h))))
          | inr f ↦
              rw (e, f, handle_clipboard_status)
                (no_requests s.clip s.clip.generation false s.clip.can_send s.clip.can_receive k
                  (λ q. absurd cc))
        ]
]
