-- ===== src/Rencode/Tag.antt =====
-- rencodeplus/rencodeplus.go: the type tags, the ranges that fold a value or a length into the tag,
-- and the separators.
use go_xpra.Prelude.{ℕ}

abbrev pub float64 : ℕ
float64 = 44

abbrev pub list : ℕ
list = 59

abbrev pub dict : ℕ
dict = 60

abbrev pub int : ℕ
int = 61

abbrev pub int1 : ℕ
int1 = 62

abbrev pub int2 : ℕ
int2 = 63

abbrev pub int4 : ℕ
int4 = 64

abbrev pub int8 : ℕ
int8 = 65

abbrev pub float32 : ℕ
float32 = 66

abbrev pub true : ℕ
true = 67

abbrev pub false : ℕ
false = 68

abbrev pub none : ℕ
none = 69

abbrev pub term : ℕ
term = 127

abbrev pub int_pos_fixed_count : ℕ
int_pos_fixed_count = 44

abbrev pub int_neg_fixed_start : ℕ
int_neg_fixed_start = 70

abbrev pub int_neg_fixed_count : ℕ
int_neg_fixed_count = 32

abbrev pub dict_fixed_start : ℕ
dict_fixed_start = 102

abbrev pub dict_fixed_count : ℕ
dict_fixed_count = 25

abbrev pub str_fixed_start : ℕ
str_fixed_start = 128

abbrev pub str_fixed_count : ℕ
str_fixed_count = 64

abbrev pub list_fixed_start : ℕ
list_fixed_start = 192

abbrev pub list_fixed_count : ℕ
list_fixed_count = 64

abbrev pub sep_text : ℕ
sep_text = b':'

abbrev pub sep_binary : ℕ
sep_binary = b'/'
