-- ===== src/Rencode/RoundTrip/Entries.antt =====
-- The entries of a list or map as pairs of writers and values: text keys and integer keys, sorted or not.
use go_xpra.Prelude.{ℕ, ◌^◌, ◌≡◌, refl, ◌∙◌, Bool, List, [], ◌∷◌, map, All, ap}
use go_xpra.Prelude.Int.{ℤ, IsSigned}
use go_xpra.Prelude.Bytes.{Bytes}
use go_xpra.Prelude.Result.{ok, ◌>>=◌}
use go_xpra.Rencode.Value.{Value, Values, no_entries}
use go_xpra.Rencode.Decimal.{append_int}
use go_xpra.Rencode.Encode.{
  Writer, encode_string, encode_int, write_entry, write_int_entry, sort_keys, encode_list,
  encode_dict,
}
use go_xpra.Rencode.Decode.{key_name}
use go_xpra.Rencode.Received.{IsText, to_values, set_all, text_key}
use go_xpra.Rencode.RoundTrip.Codec.{Codec}
use go_xpra.Rencode.RoundTrip.Ints.{int-Codec}
use go_xpra.Rencode.RoundTrip.Texts.{text-Codec}
use go_xpra.Rencode.RoundTrip.Lists.{Item, Pair, pair_write, assignments}
use go_xpra.Rencode.RoundTrip.Sorting.{sort_keys-map, sort_keys-All}
use go_xpra.Rencode.RoundTrip.Containers.{list-Codec, dict-Codec}

abbrev pub write_of : (h : ℕ) → Item h → Writer
write_of h i = i.write

abbrev pub val_of : (h : ℕ) → Item h → Value
val_of h i = i.val

-- The items of a list, as writers and as values.
abbrev pub ItemsOf : ℕ → List Writer → Values → Type 0
ItemsOf h ws vs =
    (is : List (Item h)) × (ws ≡ map (write_of h) is) × (vs ≡ to_values (map (val_of h) is))

-- The entries of a map with keys of type `K`, as writers and as values.
abbrev pub EntriesOf :
    (K : Type 0) → (K → Type 0) → ℕ → List (K × Writer) → List (K × Value) → Type 0
EntriesOf K P h ws vs =
    (l : List (K × Item h)) × (ws ≡ map (λ p. (p.0, p.1.write)) l)
    × (vs ≡ map (λ p. (p.0, p.1.val)) l)
    × All (λ p. P p.0) l

pub list_value-Codec :
    (h : ℕ) (ws : List Writer) (vs : Values)
    → ItemsOf h ws vs
    → Codec h (encode_list ws) (Value.list vs)
list_value-Codec h ws vs (is, ew, ev) = rw (ew, ev) (list-Codec h is)

-- A text key, or an integer key, with an item makes a pair.
text_pair : (h : ℕ) (k : Bytes) → IsText k → Item h → Pair h
text_pair h k r i = record {
  key_write = λ buf. ok (encode_string buf k);
  key_val = Value.text k;
  name = k;
  named = unfold key_name in refl;
  key_codec = text-Codec k r;
  it = i;
}

int_pair : (h : ℕ) (k : ℤ) → IsSigned (2 ^ 63) k → Item h → Pair h
int_pair h k r i = record {
  key_write = λ buf. encode_int buf k;
  key_val = Value.int k;
  name = append_int [] k;
  named = unfold key_name in refl;
  key_codec = int-Codec k r;
  it = i;
}

text_pairs : (h : ℕ) (l : List (Bytes × Item h)) → All (λ p. IsText p.0) l → List (Pair h)
text_pairs h [] a = []
text_pairs h ((k, i) ∷ l) a = text_pair h k a.0 i ∷ text_pairs h l a.1

int_pairs : (h : ℕ) (l : List (ℤ × Item h)) → All (λ p. IsSigned (2 ^ 63) p.0) l → List (Pair h)
int_pairs h [] a = []
int_pairs h ((k, i) ∷ l) a = int_pair h k a.0 i ∷ int_pairs h l a.1

text_pairs-write :
    (h : ℕ) (l : List (Bytes × Item h)) (a : All (λ p. IsText p.0) l)
    → map write_entry (map (λ p. (p.0, p.1.write)) l) ≡ map (pair_write h) (text_pairs h l a)
unfolding text_pairs text_pair pair_write write_entry
text_pairs-write h [] a = refl
text_pairs-write h ((k, i) ∷ l) a =
    ap (λ t. (λ buf. i.write (encode_string buf k)) ∷ t) (text_pairs-write h l a.1)

text_pairs-val :
    (h : ℕ) (l : List (Bytes × Item h)) (a : All (λ p. IsText p.0) l)
    → map (λ p. (p.0, p.1.val)) l ≡ assignments h (text_pairs h l a)
unfolding text_pairs text_pair
text_pairs-val h [] a = refl
text_pairs-val h ((k, i) ∷ l) a = ap (λ t. (k, i.val) ∷ t) (text_pairs-val h l a.1)

int_pairs-write :
    (h : ℕ) (l : List (ℤ × Item h)) (a : All (λ p. IsSigned (2 ^ 63) p.0) l)
    → map write_int_entry (map (λ p. (p.0, p.1.write)) l) ≡ map (pair_write h) (int_pairs h l a)
unfolding int_pairs int_pair pair_write write_int_entry
int_pairs-write h [] a = refl
int_pairs-write h ((k, i) ∷ l) a =
    ap (λ t. (λ buf. encode_int buf k >>= i.write) ∷ t) (int_pairs-write h l a.1)

int_pairs-val :
    (h : ℕ) (l : List (ℤ × Item h)) (a : All (λ p. IsSigned (2 ^ 63) p.0) l)
    → map text_key (map (λ p. (p.0, p.1.val)) l) ≡ assignments h (int_pairs h l a)
unfolding int_pairs int_pair text_key
int_pairs-val h [] a = refl
int_pairs-val h ((k, i) ∷ l) a = ap (λ t. (append_int [] k, i.val) ∷ t) (int_pairs-val h l a.1)

pub dict_value-Codec :
    (h : ℕ) (ws : List (Bytes × Writer)) (vs : List (Bytes × Value))
    → EntriesOf Bytes IsText h ws vs
    → Codec h (encode_dict (map write_entry ws)) (Value.map_text (set_all no_entries vs))
dict_value-Codec h ws vs (l, ew, ev, a) =
    rw (ew, ev, text_pairs-write h l a, text_pairs-val h l a) (dict-Codec h (text_pairs h l a))

pub int_dict_value-Codec :
    (h : ℕ) (ws : List (ℤ × Writer)) (vs : List (ℤ × Value))
    → EntriesOf ℤ (IsSigned (2 ^ 63)) h ws vs
    → Codec h
        (encode_dict (map write_int_entry ws))
        (Value.map_text (set_all no_entries (map text_key vs)))
int_dict_value-Codec h ws vs (l, ew, ev, a) =
    rw (ew, ev, int_pairs-write h l a, int_pairs-val h l a) (dict-Codec h (int_pairs h l a))

-- Sorted entries are entries.
pub sort_keys-EntriesOf :
    (K : Type 0) (P : K → Type 0) (lt : K → K → Bool) (h : ℕ) (ws : List (K × Writer))
    (vs : List (K × Value))
    → EntriesOf K P h ws vs
    → EntriesOf K P h (sort_keys lt ws) (sort_keys lt vs)
sort_keys-EntriesOf K P lt h ws vs (l, ew, ev, a) = (
  sort_keys lt l,
  ap (sort_keys lt) ew ∙ sort_keys-map lt (write_of h) l,
  ap (sort_keys lt) ev ∙ sort_keys-map lt (val_of h) l,
  sort_keys-All lt P l a,
)
