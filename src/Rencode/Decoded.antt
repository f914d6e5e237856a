-- ===== src/Rencode/Decoded.antt =====
-- rencodeplus/: the values that `Decode` produces.
use go_xpra.Prelude.{◌^◌, ◌≢◌, ◌≡◌, false, some}
use go_xpra.Prelude.Int.{IsSigned, fits_signed}
use go_xpra.Prelude.Bytes.{Bytes}
use go_xpra.Rencode.Value.{Value, Values, Entries, no_values, item, no_entries, entry}

-- No entry has this key.
unfoldable pub Absent : Bytes → Entries → Type 0
Absent k no_entries = Unit
Absent k (entry j v es) = (j ≢ k) × Absent k es

-- nil, bool, string, []byte, int64, *big.Int where int64 is too small, float64, []any, and maps in
-- which no key stands twice.
unfoldable mutual
  pub IsDecoded : Value → Type 0
  IsDecoded Value.nil = Unit
  IsDecoded (Value.bool b) = Unit
  IsDecoded (Value.text s) = Unit
  IsDecoded (Value.binary s) = Unit
  IsDecoded (Value.int n) = IsSigned (2 ^ 63) n
  IsDecoded (Value.big_ptr (some n)) = fits_signed (2 ^ 63) n ≡ false
  IsDecoded (Value.float64 b) = Unit
  IsDecoded (Value.list vs) = AreDecoded vs
  IsDecoded (Value.map_text es) = EntriesDecoded es
  IsDecoded _ = ⊥

  pub AreDecoded : Values → Type 0
  AreDecoded no_values = Unit
  AreDecoded (item v vs) = IsDecoded v × AreDecoded vs

  pub EntriesDecoded : Entries → Type 0
  EntriesDecoded no_entries = Unit
  EntriesDecoded (entry k v es) = IsDecoded v × Absent k es × EntriesDecoded es
