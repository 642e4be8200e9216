-- ===== src/Config/Checks.antt =====
-- What `CallxConfig::init` of src/config/CallxConfig.cpp guarantees.
use callx.Config.File.{
  parse_config, parse_lines, parse_line, get_str, is_nil, has_line_end, lines_of, trim,
  before_first, after_first,
}
use callx.Config.Values.{
  CallxConfig, new_config, read_values, read_general, read_call_limits, read_analysis, configured,
  rejected, bad_index, wave_path_missing, connect_str_missing, is_zero, is_negative,
  ends_with_slash, ensure_slash, check_rest, check, init,
}
use callx.Container.Map.{Map, find, find-insert}
use callx.Prelude.{
  ◌≡◌, ◌≢◌, refl, inl, inr, Bool, true, false, List, [], ◌∷◌, ◌++◌, Option, none, some, arith,
  subst, Bytes, bytes_key, codes, Bool-cases, Option-cases,
}

-- The constraints that hold of the values of a running program.
pub record IsConsistent (c : CallxConfig) : Type 0 where
  pub remote_ip : c.use_socket_output_interface ≡ true → is_nil c.socket_output_remote_ip ≡ false
  pub remote_port :
      c.use_socket_output_interface ≡ true → is_zero c.socket_output_remote_port ≡ false
  pub viat_db : c.use_socket_output_interface ≡ true → c.use_viat_db ≡ true
  pub pause : is_negative c.sba_pause ≡ false
  pub path : ends_with_slash c.wave_output_path ≡ true

slash_append : (s : Bytes) → ends_with_slash (s ++ b'/' ∷ []) ≡ true
slash_append [] = refl
slash_append (c ∷ []) = refl
slash_append (c ∷ d ∷ s) = slash_append (d ∷ s)

ensure_slash-ends : (s t : Bytes) → ensure_slash s ≡ some t → ends_with_slash t ≡ true
unfolding ensure_slash
ensure_slash-ends s t h = ground (arith, slash_append s)

check_rest-configured :
    (c d : CallxConfig)
    → check_rest c ≡ configured d
    → (c ≡ d)
      × (c.use_socket_output_interface ≡ true → c.use_viat_db ≡ true)
      × (is_negative c.sba_pause ≡ false)
unfolding check_rest
check_rest-configured c d h = (ground arith, λ u. ground arith, ground arith)

check-IsConsistent : (c d : CallxConfig) → check c ≡ configured d → IsConsistent d
unfolding check
check-IsConsistent c d h = elim (Option-cases (ensure_slash c.wave_output_path)) [
  | inl e ↦ ground arith
  | inr (p, e) ↦
      let c' : CallxConfig = record c { wave_output_path = p } in
      let (same_config, viat_db, pause) = check_rest-configured c' d (ground arith) in
      subst IsConsistent same_config (record {
        remote_ip = λ u. ground arith;
        remote_port = λ u. ground arith;
        viat_db = viat_db;
        pause = pause;
        path = ensure_slash-ends c.wave_output_path p e;
      })
]

-- The values that `init` leaves in the object satisfy the constraints of the code: a socket output has
-- a remote address, a port and the database, the pause of the analysis is not negative, and the path of
-- the wave files ends with a slash.
pub init-IsConsistent :
    (iequals : Bytes → Bytes → Bool) (file : Option Bytes) (c : CallxConfig)
    → init iequals file ≡ configured c
    → IsConsistent c
unfolding init
init-IsConsistent iequals file c h = elim (Option-cases (parse_config file)) [
  | inl e ↦ ground arith
  | inr (m, e) ↦ check-IsConsistent (read_values iequals m new_config) c (ground arith)
]

abbrev HasValues : Map Bytes Bytes → Type 0
HasValues m = (a v : Bytes) → find a m ≡ some v → is_nil v ≡ false

parse_line-HasValues :
    (line : Bytes) (m : Map Bytes Bytes) → HasValues m → HasValues (parse_line line m)
unfolding parse_line
parse_line-HasValues line m h a v f =
    let cut = before_first b'#' line in
    let value = trim (after_first b'=' cut) in
    ground (arith, h a v, find-insert (trim (before_first b'=' cut)) a value m)

parse_lines-HasValues :
    (lines : List Bytes) (m : Map Bytes Bytes) → HasValues m → HasValues (parse_lines lines m)
unfolding parse_lines
parse_lines-HasValues [] m h = h
parse_lines-HasValues (line ∷ rest) m h =
    parse_lines-HasValues rest (parse_line line m) (parse_line-HasValues line m h)

nothing_found : HasValues []
unfolding find
nothing_found a v f = cc

parse_config-HasValues :
    (file : Option Bytes) (m : Map Bytes Bytes) → parse_config file ≡ some m → HasValues m
unfolding parse_config
parse_config-HasValues none m h = ground arith
parse_config-HasValues (some contents) m h = elim (Bool-cases (has_line_end contents)) [
  | inl e ↦
      subst HasValues (ground arith) (parse_lines-HasValues (lines_of contents) [] nothing_found)
  | inr e ↦ ground arith
]

get_str-filled :
    (a d : Bytes) (m : Map Bytes Bytes)
    → HasValues m
    → is_nil d ≡ false
    → is_nil (get_str a d m) ≡ false
unfolding get_str
get_str-filled a d m h l = elim (Option-cases (find a m)) [
  | inl e ↦ ground arith
  | inr (v, e) ↦ ground (arith, h a v e)
]

read_values-path :
    (iequals : Bytes → Bytes → Bool) (m : Map Bytes Bytes)
    → HasValues m
    → is_nil (read_values iequals m new_config).wave_output_path ≡ false
unfolding read_values read_general read_call_limits read_analysis new_config
read_values-path iequals m h =
    get_str-filled (codes "wave_output_path") (codes "/var/spool/callx/output/") m h refl

check-outcomes :
    (c : CallxConfig)
    → is_nil c.wave_output_path ≡ false
    → (check c ≢ rejected wave_path_missing)
      × (check c ≢ bad_index)
      × (check c ≢ rejected connect_str_missing)
unfolding check check_rest ensure_slash
check-outcomes c h = (λ e. ground arith, λ e. ground arith, λ e. ground arith)

-- Three results never come out of `init`, whatever the file: the empty path of the wave files, the
-- access before the start of an empty path, and the missing connect string of the database.
pub init-outcomes :
    (iequals : Bytes → Bytes → Bool) (file : Option Bytes)
    → (init iequals file ≢ rejected wave_path_missing)
      × (init iequals file ≢ bad_index)
      × (init iequals file ≢ rejected connect_str_missing)
unfolding init
init-outcomes iequals file = elim (Option-cases (parse_config file)) [
  | inl e ↦ (λ q. ground arith, λ q. ground arith, λ q. ground arith)
  | inr (m, e) ↦
      let never =
        check-outcomes (read_values iequals m new_config)
          (read_values-path iequals m (parse_config-HasValues file m e)) in
      (λ q. never.0 (ground arith), λ q. never.1 (ground arith), λ q. never.2 (ground arith))
]
