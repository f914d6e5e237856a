-- ===== src/Protocol/Packet.antt =====
-- protocol/packet.go: decoded packets and dictionaries behind lenient accessors, and the canonical
-- names of packet types.
pub mod Laws
use go_xpra.Prelude.{
  ℕ, zero, suc, Bool, true, false, not, List, [], ◌∷◌, Option, none, some, get_elem?, ◌==◌,
  if◌then◌else◌,
}
use go_xpra.Prelude.Int.{ℤ, pos, negsuc, eqb_ℤ}
use go_xpra.Prelude.Bytes.{Bytes, bytes_eq, codes}
use go_xpra.Rencode.Value.{Value, Values, Entries, no_values, item, no_entries, entry}

-- A packet is the list that `Decode` returned.
abbrev pub Packet : Type 0
Packet = List Value

unfoldable pub to_packet : Values → Packet
to_packet no_values = []
to_packet (item v vs) = v ∷ to_packet vs

unfoldable pub or_nil : Option Value → Value
or_nil none = Value.nil
or_nil (some v) = v

unfoldable pub at : Packet → ℤ → Value
at p (pos i) = or_nil (get_elem? p i)
at p (negsuc i) = Value.nil

unfoldable pub find : Entries → Bytes → Option Value
find no_entries k = none
find (entry j v es) k = if bytes_eq j k then some v else find es k

-- What the accessors make of a value, the same for an element of a packet and of a dictionary.
unfoldable pub as_int : Value → ℤ
as_int (Value.int n) = n
as_int _ = pos 0

unfoldable pub as_str : Value → Bytes
as_str (Value.text s) = s
as_str (Value.binary b) = b
as_str _ = []

unfoldable pub as_bytes : Value → Option Bytes
as_bytes (Value.binary b) = some b
as_bytes (Value.text s) = some s
as_bytes _ = none

unfoldable pub as_bool : Value → Bool
as_bool (Value.bool b) = b
as_bool (Value.int n) = not (eqb_ℤ n (pos 0))
as_bool _ = false

unfoldable pub as_dict : Value → Option Entries
as_dict (Value.map_text es) = some es
as_dict _ = none

unfoldable pub int : Packet → ℤ → ℤ
int p i = as_int (at p i)

unfoldable pub str : Packet → ℤ → Bytes
str p i = as_str (at p i)

unfoldable pub packet_type : Packet → Bytes
packet_type p = str p (pos 0)

unfoldable pub bytes : Packet → ℤ → Option Bytes
bytes p i = as_bytes (at p i)

unfoldable pub bool : Packet → ℤ → Bool
bool p i = as_bool (at p i)

unfoldable pub dict : Packet → ℤ → Option Entries
dict p i = as_dict (at p i)

-- The accessors of a dictionary. A missing key reads as nil.
unfoldable pub dict_str : Entries → Bytes → Bytes
dict_str d k = as_str (or_nil (find d k))

unfoldable pub dict_int : Entries → Bytes → ℤ
dict_int d k = as_int (or_nil (find d k))

unfoldable pub dict_bool : Entries → Bytes → Bool
dict_bool d k = as_bool (or_nil (find d k))

unfoldable pub dict_has : Entries → Bytes → Bool
dict_has d k = elim (find d k) [ none ↦ false | some v ↦ true ]

unfoldable pub dict_dict : Entries → Bytes → Option Entries
dict_dict d k = as_dict (or_nil (find d k))

unfoldable pub dict_bytes : Entries → Bytes → Option Bytes
dict_bytes d k = as_bytes (or_nil (find d k))

abbrev pub canonical_names : List (Bytes × Bytes)
canonical_names =
    (codes "new-window", codes "window-create")
    ∷ (codes "lost-window", codes "window-destroy")
    ∷ (codes "draw", codes "window-draw")
    ∷ (codes "eos", codes "window-eos")
    ∷ (codes "raise-window", codes "window-raise")
    ∷ (codes "restack-window", codes "window-restack")
    ∷ (codes "initiate-moveresize", codes "window-initiate-moveresize")
    ∷ (codes "configure-override-redirect", codes "window-move-resize")
    ∷ (codes "bell", codes "window-bell")
    ∷ (codes "notify_show", codes "notification-show")
    ∷ (codes "notify_close", codes "notification-close")
    ∷ (codes "ping_echo", codes "ping-echo")
    ∷ []

unfoldable pub name_of : List (Bytes × Bytes) → Bytes → Option Bytes
name_of [] t = none
name_of ((legacy, modern) ∷ l) t = if bytes_eq legacy t then some modern else name_of l t

-- `Canonical`, at the value of `BackwardsCompatible`.
unfoldable pub canonical : Bool → Bytes → Bytes
canonical backwards_compatible t =
    if backwards_compatible
    then elim (name_of canonical_names t) [ some modern ↦ modern | none ↦ t ]
    else t
