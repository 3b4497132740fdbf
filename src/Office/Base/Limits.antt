-- ===== src/Office/Base/Limits.antt =====
-- The entries of `OFFICE_LIMITS` that the text formats read.
use useful.Common.{ℕ, ◌*◌}

abbrev pub model_text_chars : ℕ
model_text_chars = 100000

abbrev pub table_rows : ℕ
table_rows = 4096

abbrev pub table_columns : ℕ
table_columns = 256

abbrev pub rows_per_sheet : ℕ
rows_per_sheet = 100000

abbrev pub cells : ℕ
cells = 1000000

abbrev pub csv_bytes : ℕ
csv_bytes = 16 * 1024 * 1024

abbrev pub csv_columns : ℕ
csv_columns = 10000
