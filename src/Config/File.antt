-- ===== src/Config/File.antt =====
-- src/config/Config.{hpp,cpp}: the parser of the configuration file, over the bytes of the file, and the
-- typed lookups. `boost::iequals` is a parameter of `get_bool`.
use callx.Container.Map.{Map, find, insert}
use callx.Prelude.{
  ℕ, ℤ, pos, neg, Bool, true, false, ◌&&◌, ◌||◌, List, [], ◌∷◌, Option, none, some, if◌then◌else◌,
  leb, ◌==◌, Bytes, bytes_key, codes, number_from,
}

abbrev pub is_nil : Bytes → Bool
is_nil [] = true
is_nil (c ∷ s) = false

abbrev pub cons_first : ℕ → List Bytes → List Bytes
cons_first c [] = (c ∷ []) ∷ []
cons_first c (l ∷ ls) = (c ∷ l) ∷ ls

-- What `getline` reads, call by call, until the stream is at its end: the last piece may be empty.
unfoldable pub lines_of : Bytes → List Bytes
lines_of [] = [] ∷ []
lines_of (c ∷ s) = let rest = lines_of s in if c == b'\n' then [] ∷ rest else cons_first c rest

-- `substr(0, find(c))`
unfoldable pub before_first : ℕ → Bytes → Bytes
before_first c [] = []
before_first c (d ∷ s) = let rest = before_first c s in if d == c then [] else d ∷ rest

-- `substr(find(c) + 1)`, which is the whole text where there is no such character, since `npos + 1` is 0
abbrev pub rest_after : ℕ → Bytes → Option Bytes
rest_after c [] = none
rest_after c (d ∷ s) = let rest = rest_after c s in if d == c then some s else rest

unfoldable pub after_first : ℕ → Bytes → Bytes
after_first c s = elim (rest_after c s) [ none ↦ s | some rest ↦ rest ]

-- The two calls of `erase`: the blanks at the front, then those at the end.
unfoldable pub trim_front : Bytes → Bytes
trim_front [] = []
trim_front (c ∷ s) = let rest = trim_front s in if c == b' ' then rest else c ∷ s

unfoldable pub trim_back : Bytes → Bytes
trim_back [] = []
trim_back (c ∷ s) = let rest = trim_back s in if c == b' ' && is_nil rest then [] else c ∷ rest

unfoldable pub trim : Bytes → Bytes
trim s = trim_back (trim_front s)

abbrev pub starts_with_equals : Bytes → Bool
starts_with_equals [] = false
starts_with_equals (c ∷ s) = c == b'='

-- The body of the loop: a comment is cut off, a line that begins with the equal sign is skipped, and an
-- attribute that is there keeps its value.
unfoldable pub parse_line : Bytes → Map Bytes Bytes → Map Bytes Bytes
parse_line raw m =
    let line = before_first b'#' raw in
    let attribute = trim (before_first b'=' line) in
    let value = trim (after_first b'=' line) in
    if starts_with_equals line || is_nil attribute || is_nil value
    then m
    else insert attribute value m

unfoldable pub parse_lines : List Bytes → Map Bytes Bytes → Map Bytes Bytes
parse_lines [] m = m
parse_lines (line ∷ rest) m = parse_lines rest (parse_line line m)

abbrev pub has_line_end : Bytes → Bool
has_line_end [] = false
has_line_end (c ∷ s) = c == b'\n' || has_line_end s

abbrev pub parse_file : Option Bytes → Option (Map Bytes Bytes)
parse_file none = none
parse_file (some contents) =
    if has_line_end contents then some (parse_lines (lines_of contents) []) else none

-- `parseConfig`, on the contents of the file, if it can be opened: `none` is the result false, which
-- is also that for a file whose first line has no end.
unfoldable pub parse_config : Option Bytes → Option (Map Bytes Bytes)
parse_config file = parse_file file

-- `getStr`
unfoldable pub get_str : Bytes → Bytes → Map Bytes Bytes → Bytes
get_str attribute default_value m = elim (find attribute m) [
  | none ↦ default_value
  | some value ↦ value
]

abbrev is_space : ℕ → Bool
is_space c = c == b' ' || (leb 9 c && leb c 13)

abbrev skip_space : Bytes → Bytes
skip_space [] = []
skip_space (c ∷ s) = let rest = skip_space s in if is_space c then rest else c ∷ s

abbrev clamp : Bool → ℕ → ℤ
clamp true n = neg (if leb n 2147483648 then n else 2147483648)
clamp false n = pos (if leb n 2147483647 then n else 2147483647)

abbrev signed : Bytes → ℤ
signed [] = pos 0
signed (c ∷ s) =
    if c == b'-'
    then clamp true (number_from 0 s)
    else if c == b'+'
    then clamp false (number_from 0 s)
    else clamp false (number_from 0 (c ∷ s))

-- `strStream >> intValue`: blanks, a sign and digits, 0 where there are none, and the nearest limit of
-- 32 bits where the number is out of range
unfoldable pub read_int : Bytes → ℤ
read_int s = signed (skip_space s)

-- `getInt`
unfoldable pub get_int : Bytes → ℤ → Map Bytes Bytes → ℤ
get_int attribute default_value m =
    let value = get_str attribute [] m in if is_nil value then default_value else read_int value

-- `getBool`; the default value is not looked at
unfoldable pub get_bool : (Bytes → Bytes → Bool) → Bytes → Map Bytes Bytes → Bool
get_bool iequals attribute m =
    let value = get_str attribute [] m in
    iequals value (codes "true") || iequals value (codes "yes") || iequals value (codes "1")
