-- ===== src/Str/Replace.antt =====
-- str_replace_str of src/str.c is one pass over the text.
use ocserv_ppa.Str.{Str}
