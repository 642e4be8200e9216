-- ===== src/Config/RoundTrip.antt =====
-- A configuration file as it is written by hand, through the parser of src/config/Config.cpp.
use callx.Config.File.{
  parse_config, parse_lines, parse_line, lines_of, before_first, after_first, rest_after, trim,
  trim_front, trim_back, get_str, is_nil, has_line_end, starts_with_equals,
}
use callx.Container.Map.{Map, find, insert, find-insert}
use callx.Prelude.{
  ℕ, ◌≡◌, refl, ap, ◌∙◌, true, false, List, [], ◌∷◌, ◌++◌, Option, none, some, arith, if◌then◌else◌,
  ◌==◌, Bytes, bytes_key, same, All, All-append, All-mono,
}

-- An attribute or a value: it has a character, no blank at either end, and none of `#`, `=` and the line
-- end.
pub record IsText (s : Bytes) : Type 0 where
  pub head : ℕ
  pub tail : Bytes
  pub shape : s ≡ head ∷ tail
  pub front : (head == b' ') ≡ false
  pub back : trim_back s ≡ s
  pub plain : All (λ c. ((c == b'#') ≡ false) × ((c == b'=') ≡ false) × ((c == b'\n') ≡ false)) s

-- An attribute, its value and a comment without a line end.
pub record Entry : Type 0 where
  pub attribute : Bytes
  pub value : Bytes
  pub comment : Bytes

pub record IsEntry (e : Entry) : Type 0 where
  pub attribute_text : IsText e.attribute
  pub value_text : IsText e.value
  pub comment_line : All (λ c. (c == b'\n') ≡ false) e.comment

abbrev setting : Entry → Bytes
setting e = (e.attribute ++ b' ' ∷ []) ++ b'=' ∷ b' ' ∷ (e.value ++ b' ' ∷ [])

-- `attribute = value #comment`
abbrev pub line_of : Entry → Bytes
line_of e = setting e ++ b'#' ∷ e.comment

abbrev pub file_of : List Entry → Bytes
file_of [] = []
file_of (e ∷ es) = line_of e ++ b'\n' ∷ file_of es

-- The value of the first entry with the attribute.
abbrev pub first_value : Bytes → List Entry → Option Bytes
first_value a [] = none
first_value a (e ∷ es) =
    let rest = first_value a es in if same e.attribute a then some e.value else rest

before_first-append :
    (c : ℕ) (s t : Bytes) → All (λ d. (d == c) ≡ false) s → before_first c (s ++ c ∷ t) ≡ s
unfolding before_first
before_first-append c [] t h = ground arith
before_first-append c (d ∷ s) t h = ground (arith, before_first-append c s t h.1)

rest_after-append :
    (c : ℕ) (s t : Bytes) → All (λ d. (d == c) ≡ false) s → rest_after c (s ++ c ∷ t) ≡ some t
rest_after-append c [] t h = ground arith
rest_after-append c (d ∷ s) t h = ground (arith, rest_after-append c s t h.1)

trim_back-blank : (s : Bytes) → trim_back (s ++ b' ' ∷ []) ≡ trim_back s
unfolding trim_back
trim_back-blank [] = refl
trim_back-blank (c ∷ s) = rw (trim_back-blank s) refl

trim_front-text : (s t : Bytes) → IsText s → trim_front (s ++ t) ≡ s ++ t
unfolding trim_front
trim_front-text s t h = rw h.shape (ground (arith, h.front))

trim_text : (s : Bytes) → IsText s → trim (s ++ b' ' ∷ []) ≡ s
unfolding trim
trim_text s h = ap trim_back (trim_front-text s (b' ' ∷ []) h) ∙ trim_back-blank s ∙ h.back

trim_padded : (s : Bytes) → IsText s → trim (b' ' ∷ (s ++ b' ' ∷ [])) ≡ s
unfolding trim trim_front
trim_padded s h = trim_text s h

without :
    (b : ℕ) (s : Bytes)
    → All (λ c. (c == b) ≡ false) s
    → (b == b' ') ≡ false
    → All (λ c. (c == b) ≡ false) (s ++ b' ' ∷ [])
without b s h l = All-append (λ c. (c == b) ≡ false) s (b' ' ∷ []) h (ground arith, tt)

no_hash : (s : Bytes) → IsText s → All (λ c. (c == b'#') ≡ false) s
no_hash s h = All-mono _ _ s (λ c p. p.0) h.plain

no_equals : (s : Bytes) → IsText s → All (λ c. (c == b'=') ≡ false) s
no_equals s h = All-mono _ _ s (λ c p. p.1) h.plain

no_line_end : (s : Bytes) → IsText s → All (λ c. (c == b'\n') ≡ false) s
no_line_end s h = All-mono _ _ s (λ c p. p.2) h.plain

setting_without :
    (b : ℕ) (e : Entry)
    → (b == b' ') ≡ false
    → (b == b'=') ≡ false
    → All (λ c. (c == b) ≡ false) e.attribute
    → All (λ c. (c == b) ≡ false) e.value
    → All (λ c. (c == b) ≡ false) (setting e)
setting_without b e l k ha hv =
    All-append (λ c. (c == b) ≡ false) (e.attribute ++ b' ' ∷ [])
      (b'=' ∷ b' ' ∷ (e.value ++ b' ' ∷ [])) (without b e.attribute ha l)
      (ground arith, (ground arith, without b e.value hv l))

not_nil : (s : Bytes) → IsText s → is_nil s ≡ false
not_nil s h = rw h.shape refl

starts_plainly :
    (s t u : Bytes)
    → is_nil s ≡ false
    → All (λ c. (c == b'=') ≡ false) s
    → starts_with_equals ((s ++ t) ++ u) ≡ false
starts_plainly [] t u h l = cc
starts_plainly (c ∷ s) t u h l = l.0

after_first-append :
    (c : ℕ) (s t : Bytes) → All (λ d. (d == c) ≡ false) s → after_first c (s ++ c ∷ t) ≡ t
unfolding after_first
after_first-append c s t h = rw (rest_after-append c s t h, after_first) refl

parse_line-line_of :
    (e : Entry) (m : Map Bytes Bytes)
    → IsEntry e
    → parse_line (line_of e) m ≡ insert e.attribute e.value m
unfolding parse_line
parse_line-line_of e m h =
    let ta = h.attribute_text in
    let tv = h.value_text in
    let cut =
      before_first-append b'#' (setting e) e.comment
        (setting_without b'#' e refl refl (no_hash e.attribute ta) (no_hash e.value tv)) in
    let equals = without b'=' e.attribute (no_equals e.attribute ta) refl in
    let left =
      before_first-append b'=' (e.attribute ++ b' ' ∷ []) (b' ' ∷ (e.value ++ b' ' ∷ [])) equals in
    let right =
      after_first-append b'=' (e.attribute ++ b' ' ∷ []) (b' ' ∷ (e.value ++ b' ' ∷ [])) equals in
    let start : starts_with_equals (setting e) ≡ false =
      starts_plainly e.attribute _ _ (not_nil e.attribute ta) (no_equals e.attribute ta) in
    rw
      (
        cut,
        parse_line,
        left,
        right,
        start,
        trim_text e.attribute ta,
        trim_padded e.value tv,
        not_nil e.attribute ta,
        not_nil e.value tv,
      )
      refl

lines_of-append :
    (l s : Bytes) → All (λ c. (c == b'\n') ≡ false) l → lines_of (l ++ b'\n' ∷ s) ≡ l ∷ lines_of s
unfolding lines_of
lines_of-append [] s h = refl
lines_of-append (c ∷ l) s h = rw (h.0, lines_of-append l s h.1) refl

line_of-lines :
    (e : Entry) (s : Bytes) → IsEntry e → lines_of (line_of e ++ b'\n' ∷ s) ≡ line_of e ∷ lines_of s
line_of-lines e s h = lines_of-append (line_of e) s (
    All-append (λ c. (c == b'\n') ≡ false) (setting e) (b'#' ∷ e.comment)
      (setting_without b'\n' e refl refl (no_line_end e.attribute h.attribute_text)
        (no_line_end e.value h.value_text))
      (refl, h.comment_line))

abbrev else_find : Option Bytes → Option Bytes → Option Bytes
else_find none other = other
else_find (some v) other = some v

parse_line-nil : (m : Map Bytes Bytes) → parse_line [] m ≡ m
unfolding parse_line before_first after_first trim trim_front trim_back
parse_line-nil m = refl

find-file_of :
    (a : Bytes) (es : List Entry) (m : Map Bytes Bytes)
    → All IsEntry es
    → find a (parse_lines (lines_of (file_of es)) m) ≡ else_find (find a m) (first_value a es)
unfolding parse_lines lines_of
find-file_of a [] m h = rw (parse_line-nil m) (ground arith)
find-file_of a (e ∷ es) m h =
    rw
      (
        line_of-lines e (file_of es) h.0,
        parse_lines,
        parse_line-line_of e m h.0,
        find-file_of a es (insert e.attribute e.value m) h.1,
        find-insert e.attribute a e.value m,
      )
      (ground arith)

has_line_end-append : (l s : Bytes) → has_line_end (l ++ b'\n' ∷ s) ≡ true
has_line_end-append [] s = refl
has_line_end-append (c ∷ l) s = rw (has_line_end-append l s) (ground arith)

abbrev pub value_or : Bytes → Option Bytes → Bytes
value_or default_value none = default_value
value_or default_value (some v) = v

-- A file of entries, each written with blanks around the equal sign and a comment behind it, is read
-- back: every attribute has the value of its first entry, or the default value where it has none.
pub parse_config-file_of :
    (e : Entry) (es : List Entry)
    → All IsEntry (e ∷ es)
    → (m : Map Bytes Bytes) × (parse_config (some (file_of (e ∷ es))) ≡ some m)
      × ((a d : Bytes) → get_str a d m ≡ value_or d (first_value a (e ∷ es)))
unfolding parse_config get_str find
parse_config-file_of e es h = (
  parse_lines (lines_of (file_of (e ∷ es))) [],
  rw (has_line_end-append (line_of e) (file_of es)) refl,
  λ a d. ground (arith, find-file_of a (e ∷ es) [] h),
)
