-- ===== src/Client/Clipboard/Remote.antt =====
-- client/clipboard.go: the server's clipboard packets.
use go_xpra.Prelude.{
  ℕ, Bool, true, false, ◌||◌, ◌&&◌, not, List, [], ◌∷◌, Option, none, some, length, leb, ltb, ◌==◌,
  if◌then◌else◌,
}
use go_xpra.Prelude.Int.{ℤ, pos}
use go_xpra.Prelude.Bytes.{Bytes, codes, bytes_eq}
use go_xpra.Prelude.Table.{lookup, delete, int_key}
use go_xpra.Rencode.Value.{Value, Entries, no_entries}
use go_xpra.Protocol.Packet.{
  Packet, to_packet, at, as_int, int, str, bool, dict, find, or_nil, dict_bool, dict_has,
}
use go_xpra.Client.State.{Platform, Request, Session, send, or_default}
use go_xpra.Client.Clipboard.Text.{
  clipboard_selection, clipboard_targets, contains_string, is_clipboard_text_target,
  clipboard_wire_text, string_value, value_strings,
}
use go_xpra.Client.Clipboard.{
  with_clip, targets_value, offer_clipboard, may_receive_clipboard, begin_remote_clipboard,
  apply_remote_clipboard, apply_or_request,
}

unfoldable pub not_for_us : ℕ → Packet → Session → Bool
not_for_us size packet s =
    ltb (length packet) size
    || not (bytes_eq (str packet (pos 1)) clipboard_selection)
    || not (may_receive_clipboard s)

unfoldable pub token_text : Packet → Option Bytes
token_text packet =
    if ltb (length packet) 8
    then none
    else clipboard_wire_text (str packet (pos 3)) (int packet (pos 5)) (str packet (pos 6))
        (at packet (pos 7))

unfoldable pub token_claims : Packet → Bool
token_claims packet = if leb 10 (length packet) then bool packet (pos 8) else true

-- A value that is a list, as its elements.
unfoldable pub parts_of : Value → List Value
parts_of (Value.list vs) = to_packet vs
parts_of _ = []

unfoldable pub item_text : Bytes → Value → Option Bytes
item_text target value = elim (parts_of value) [
  | kind ∷ format ∷ encoding ∷ area ∷ rest ↦
      clipboard_wire_text target (as_int format) (or_default [] (string_value encoding)) area
  | _ ↦ none
]

-- The loop over the targets: the first one whose item is text.
unfoldable pub first_text : List Bytes → Entries → Option Bytes
first_text [] items = none
first_text (target ∷ targets) items = elim (item_text target (or_nil (find items target))) [
  | some text ↦ some text
  | none ↦ first_text targets items
]

unfoldable pub items_of : Value → Entries
items_of (Value.map_text items) = items
items_of _ = no_entries

-- A token without its claim, or the claim without the token.
unfoldable pub declined : Entries → Bool
declined options =
    (dict_has options (codes "token") && not (dict_bool options (codes "token")))
    || (dict_has options (codes "claim") && not (dict_bool options (codes "claim")))

module _ (p : Platform) where
  unfoldable pub handle_clipboard_token : Packet → Session → Session
  handle_clipboard_token packet s =
      if not_for_us 2 packet s || not (token_claims packet)
      then s
      else apply_or_request p (token_text packet) (value_strings (at packet (pos 2)))
          (begin_remote_clipboard s)

  unfoldable pub with_data_options : Option Entries → Session → Session
  with_data_options none s = s
  with_data_options (some options) s =
      if declined options
      then s
      else apply_or_request p
          (first_text clipboard_targets (items_of (or_nil (find options (codes "data")))))
          (value_strings (or_nil (find options (codes "targets")))) (begin_remote_clipboard s)

  unfoldable pub handle_clipboard_data : Packet → Session → Session
  handle_clipboard_data packet s =
      if not_for_us 3 packet s then s else with_data_options (dict packet (pos 2)) s

unfoldable pub forget_request : ℤ → Session → Session
forget_request id s = with_clip (record s.clip { requests = delete id s.clip.requests }) s

unfoldable pub contents_text : Request → Packet → Option Bytes
contents_text r packet =
    clipboard_wire_text r.target (int packet (pos 4)) (str packet (pos 5)) (at packet (pos 6))

module _ (p : Platform) where
  unfoldable pub apply_text : Option Bytes → Session → Session
  apply_text none s = s
  apply_text (some text) s = apply_remote_clipboard p text s

  -- An answer counts only for the request of the current generation.
  unfoldable pub answered : Option Request → Packet → Session → Session
  answered none packet s = s
  answered (some r) packet s =
      if not (r.generation == s.clip.generation)
        || not (bytes_eq (str packet (pos 2)) clipboard_selection)
      then s
      else apply_text (contents_text r packet) s

  unfoldable pub handle_clipboard_contents : Packet → Session → Session
  handle_clipboard_contents packet s =
      let id = int packet (pos 1) in
      if ltb (length packet) 7
      then s
      else answered (lookup s.clip.requests id) packet (forget_request id s)

unfoldable pub handle_clipboard_contents_none : Packet → Session → Session
handle_clipboard_contents_none packet s =
    if leb 2 (length packet) then forget_request (int packet (pos 1)) s else s

abbrev pub contents_packet : ℤ → Bytes → Value → ℤ → Bytes → Value → List Value
contents_packet id selection target format encoding area =
    Value.text (codes "clipboard-contents")
    ∷ Value.int id
    ∷ Value.text selection
    ∷ target
    ∷ Value.int format
    ∷ Value.text encoding
    ∷ area
    ∷ Value.int (pos 0)
    ∷ []

abbrev pub contents_none_packet : ℤ → Bytes → List Value
contents_none_packet id selection =
    Value.text (codes "clipboard-contents-none") ∷ Value.int id ∷ Value.text selection ∷ []

unfoldable pub answer_request : ℤ → Bytes → Bytes → Session → List Value
answer_request id selection target s =
    if not s.clip.ready || not s.clip.can_send || not (bytes_eq selection clipboard_selection)
    then contents_none_packet id selection
    else if bytes_eq target (codes "TARGETS")
    then contents_packet id selection (Value.text (codes "ATOM")) (pos 32) (codes "atoms")
        targets_value
    else if not (is_clipboard_text_target target) || not s.clip.known
    then contents_none_packet id selection
    else contents_packet id selection (Value.text target) (pos 8) (codes "bytes")
        (Value.binary s.clip.text)

unfoldable pub handle_clipboard_request : Packet → Session → Session
handle_clipboard_request packet s =
    if ltb (length packet) 4
    then s
    else send (answer_request (int packet (pos 1)) (str packet (pos 2)) (str packet (pos 3)) s) s

unfoldable pub set_ready : Bool → Session → Session
set_ready ready s = with_clip (record s.clip { ready = ready }) s

module _ (p : Platform) where
  unfoldable pub handle_clipboard_enable_selections : Packet → Session → Session
  handle_clipboard_enable_selections packet s =
      if ltb (length packet) 2
        || not (contains_string (value_strings (at packet (pos 1))) clipboard_selection)
      then set_ready false s
      else if s.clip.present && (s.clip.can_send || s.clip.can_receive)
      then offer_clipboard p (set_ready true s)
      else s

  unfoldable pub handle_clipboard_status : Packet → Session → Session
  handle_clipboard_status packet s =
      let ready =
        bool packet (pos 1) && s.clip.present && (s.clip.can_send || s.clip.can_receive) in
      if ltb (length packet) 2
      then s
      else if ready
      then offer_clipboard p (set_ready true s)
      else with_clip (record s.clip { ready = false; requests = [] }) s
