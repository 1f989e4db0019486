-- ===== src/Tests/Messages.antt =====
-- The theorems on src/vmod_header.c at concrete inputs.
use operations_debs_varnish.Base.{
  List, [], ◌∷◌, ◌++◌, Option, none, some, ◌≡◌, Bytes, codes, eq_bytes, length,
}
use operations_debs_varnish.Header.{Slot, header_http_Unset}
use operations_debs_varnish.Header.Compact.{left, header_http_Unset_lem}

-- A text in place of an expression, which matches that text
abbrev re_init : Bytes → Option Bytes
re_init s = some s

abbrev cookie_name : Bytes
cookie_name = codes "Set-Cookie:"

abbrev message : List Slot
message =
    record { text = some (codes "set-cookie: a"); flags = 0 }
    ∷ record { text = none; flags = 0 }
    ∷ record { text = some (codes "Server: b"); flags = 1 }
    ∷ []

abbrev unused : List Slot
unused = record { text = none; flags = 0 } ∷ []

header_http_Unset_lem_example :
    (back : List Slot) × (header_http_Unset Bytes eq_bytes re_init
        (some (codes "a"))
        cookie_name
        (record { hd = message ++ unused; nhd = 3 })
      ≡ some (record {
        hd = left Bytes eq_bytes re_init (some (codes "a")) cookie_name message ++ back;
        nhd = length (left Bytes eq_bytes re_init (some (codes "a")) cookie_name message);
      }))
header_http_Unset_lem_example =
    header_http_Unset_lem Bytes eq_bytes re_init (some (codes "a")) cookie_name message unused
