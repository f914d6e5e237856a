-- ===== src/Rencode/Value.antt =====
-- rencodeplus/rencodeplus.go: the dynamic values that packets are built of.
use go_xpra.Prelude.{ℕ, Bool, List, Option, if◌then◌else◌}
use go_xpra.Prelude.Int.{ℤ}
use go_xpra.Prelude.Bytes.{Bytes, bytes_eq}

-- A Go `any`, by its dynamic type. A float is its IEEE-754 bit pattern. Maps hold their entries in
-- some order; what the code does with one never depends on it.
mutual
  pub data Value : Type 0 where
    nil : Value
    bool : Bool → Value
    -- string and []byte
    text : Bytes → Value
    binary : Bytes → Value
    -- int, int8 to int64, uint8 to uint32: all convert to int64 with their value kept
    int : ℤ → Value
    -- uint and uint64
    uint : ℕ → Value
    -- big.Int, and *big.Int with its nil
    big_int : ℤ → Value
    big_ptr : Option ℤ → Value
    float32 : ℕ → Value
    float64 : ℕ → Value
    -- []any, []string, []int
    list : Values → Value
    texts : List Bytes → Value
    ints : List ℤ → Value
    -- Dict, map[string]any, map[int]any
    dict : Entries → Value
    map_text : Entries → Value
    map_int : IntEntries → Value
    -- a value of any other type
    other : Value

  pub data Values : Type 0 where
    no_values : Values
    item : Value → Values → Values

  pub data Entries : Type 0 where
    no_entries : Entries
    entry : Bytes → Value → Entries → Entries

  pub data IntEntries : Type 0 where
    no_int_entries : IntEntries
    int_entry : ℤ → Value → IntEntries → IntEntries

-- `Dict.Set`, and assignment to a key of a map: replace in place, or append.
unfoldable pub set : Bytes → Value → Entries → Entries
unfolding bytes_eq
set k v no_entries = entry k v no_entries
set k v (entry j w es) = if bytes_eq j k then entry j v es else entry j w (set k v es)
