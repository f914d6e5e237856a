-- ===== src/Client/Clipboard.antt =====
-- client/clipboard.go: the clipboard that both sides share.
pub mod Text
pub mod Kept
pub mod Rounds
pub mod Switches
pub mod Direction
pub mod Remote
use go_xpra.Prelude.{
  ℕ, suc, ◌+◌, Bool, true, false, ◌||◌, ◌&&◌, not, List, [], ◌∷◌, ◌++◌, Option, none, some, length,
  leb, ltb, ◌==◌, if◌then◌else◌,
}
use go_xpra.Prelude.Int.{ℤ, pos}
use go_xpra.Prelude.Bytes.{Bytes, codes, bytes_eq}
use go_xpra.Prelude.Table.{Table, lookup, insert, delete, int_key}
use go_xpra.Rencode.Value.{Value, Values, Entries, no_values, item, no_entries, entry}
use go_xpra.Protocol.Packet.{
  Packet, to_packet, at, as_int, int, str, bool, dict, find, or_nil, dict_str, dict_bool, dict_has,
}
use go_xpra.Client.State.{
  Action, clipboard_set, Platform, Request, Clip, Session, act, send, or_default,
}
use go_xpra.Client.Clipboard.Text.{
  max_clipboard_bytes, max_clipboard_token_bytes, clipboard_selection, clipboard_targets,
  utf8_valid, contains_string, is_clipboard_text_target, clipboard_wire_text,
  preferred_clipboard_target, string_value, value_strings,
}

unfoldable pub with_clip : Clip → Session → Session
with_clip c s = record s { clip = c }

abbrev pub targets_value : Value
targets_value = Value.texts clipboard_targets

-- The token of a legacy server, and of a modern one, with small contents in it.
unfoldable pub legacy_token : Bytes → List Value
legacy_token text =
    Value.text (codes "clipboard-token")
    ∷ Value.text clipboard_selection
    ∷ targets_value
    ∷ (if leb (length text) max_clipboard_token_bytes
        then Value.text (codes "UTF8_STRING")
          ∷ Value.text (codes "UTF8_STRING")
          ∷ Value.int (pos 8)
          ∷ Value.text (codes "bytes")
          ∷ Value.binary text
          ∷ Value.bool true
          ∷ Value.bool true
          ∷ []
        else [])

unfoldable pub modern_token : Bytes → List Value
modern_token text =
    let inline =
      entry (codes "data")
        (Value.map_text (
          entry (codes "UTF8_STRING")
            (Value.list (
              item (Value.text (codes "UTF8_STRING")) (
                item (Value.int (pos 8))
                  (item (Value.text (codes "bytes")) (item (Value.binary text) no_values)))))
            no_entries))
        no_entries in
    Value.text (codes "clipboard-data")
    ∷ Value.text clipboard_selection
    ∷ Value.dict (
        entry (codes "claim") (Value.bool true) (
          entry (codes "greedy") (Value.bool true) (
            entry (codes "targets") targets_value
              (if leb (length text) max_clipboard_token_bytes then inline else no_entries))))
    ∷ []

module _ (p : Platform) where
  unfoldable pub send_clipboard_token : Session → Session
  send_clipboard_token s =
      if not s.clip.known
      then s
      else send (if p.compatible then legacy_token s.clip.text else modern_token s.clip.text) s

  -- The token follows where there is something to send and the server takes it.
  unfoldable pub offer_clipboard : Session → Session
  offer_clipboard s =
      let t = send_clipboard_token s in if s.clip.can_send && s.clip.known then t else s

unfoldable pub no_clipboard : Clip → Clip
no_clipboard c = record c { ready = false; can_send = false; can_receive = false; requests = [] }

-- What each direction allows: sending and receiving.
unfoldable pub directions : Bytes → Option (Bool × Bool)
directions d =
    if bytes_eq d [] || bytes_eq d (codes "both")
    then some (true, true)
    else if bytes_eq d (codes "to-server")
    then some (true, false)
    else if bytes_eq d (codes "to-client")
    then some (false, true)
    else none

unfoldable pub other_selections : Entries → Bool
other_selections caps =
    let selections = value_strings (or_nil (find caps (codes "selections"))) in
    ltb 0 (length selections) && not (contains_string selections clipboard_selection)

module _ (p : Platform) where
  unfoldable pub enable_clipboard : Bool × Bool → Session → Session
  enable_clipboard (to_server, to_client) s = offer_clipboard p (
      send
        (Value.text (codes "clipboard-enable-selections")
          ∷ Value.texts (clipboard_selection ∷ [])
          ∷ [])
        (with_clip (record s.clip { ready = true; can_send = to_server; can_receive = to_client })
          s))

  unfoldable pub with_clipboard_caps : Option Entries → Session → Session
  with_clipboard_caps none s = s
  with_clipboard_caps (some caps) s =
      if not s.clip.present
        || (dict_has caps (codes "enabled") && not (dict_bool caps (codes "enabled")))
        || other_selections caps
      then s
      else elim (directions (dict_str caps (codes "direction"))) [
        | none ↦ s
        | some allowed ↦ enable_clipboard allowed s
      ]

  unfoldable pub configure_clipboard : Option Entries → Session → Session
  configure_clipboard caps s = with_clipboard_caps caps (with_clip (no_clipboard s.clip) s)

  -- A local change of text that fits, is valid and is new.
  unfoldable pub handle_clipboard_change : Bytes → Session → Session
  handle_clipboard_change text s =
      let t = with_clip (record s.clip { text = text; known = true }) s in
      if ltb max_clipboard_bytes (length text)
        || not (utf8_valid text)
        || (s.clip.known && bytes_eq s.clip.text text)
      then s
      else if s.clip.ready && s.clip.can_send
      then send_clipboard_token p t
      else t

unfoldable pub may_receive_clipboard : Session → Bool
may_receive_clipboard s = s.clip.ready && s.clip.can_receive && s.clip.present

unfoldable pub request_packet : ℕ → Bytes → List Value
request_packet id target =
    Value.text (codes "clipboard-request")
    ∷ Value.int (pos id)
    ∷ Value.text clipboard_selection
    ∷ Value.text target
    ∷ []

-- Requests are numbered from 1; 2^63 of them are not reached.
unfoldable pub request_target : Bytes → Session → Session
request_target [] s = s
request_target target s =
    let id = suc s.clip.next_request in
    send (request_packet id target) (
      with_clip
        (record s.clip {
          next_request = id;
          requests =
              insert (pos id) (record { generation = s.clip.generation; target = target })
                s.clip.requests;
        })
        s)

unfoldable pub request_remote_clipboard : List Bytes → Session → Session
request_remote_clipboard targets s = request_target (preferred_clipboard_target targets) s

-- The counter is a uint64, and does not wrap in the life of a session.
unfoldable pub begin_remote_clipboard : Session → Session
begin_remote_clipboard s =
    with_clip (record s.clip { generation = suc s.clip.generation; requests = [] }) s

module _ (p : Platform) where
  unfoldable pub apply_remote_clipboard : Bytes → Session → Session
  apply_remote_clipboard text s =
      let t = act (clipboard_set text) s in
      if ltb max_clipboard_bytes (length text) || (s.clip.known && bytes_eq s.clip.text text)
      then s
      else if p.fails t.log
      then t
      else with_clip (record s.clip { text = text; known = true }) t

  unfoldable pub apply_or_request : Option Bytes → List Bytes → Session → Session
  apply_or_request (some text) targets s = apply_remote_clipboard text s
  apply_or_request none targets s = request_remote_clipboard targets s
