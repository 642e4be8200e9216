-- ===== src/Console/Lines.antt =====
-- Lines that arrive at src/console/Session.cpp in pieces.
use callx.Console.Session.{
  Session, line, part, ends_with_line_end, handle_user_data, answer, handle_read, handle_reads,
  read_if_open, command_of,
}
use callx.Prelude.{
  ℕ, suc, ◌+◌, ◌-◌, ◌≤◌, ◌≡◌, refl, sym, ap, ◌∙◌, true, false, List, [], ◌∷◌, ◌++◌, some, arith,
  Bytes, length, length-append, get_or, take, All, ltb,
}
use mathlib.Core.List.{append-nil, append_assoc}

-- A read of at least two bytes that does not end a line.
abbrev pub IsPart : Bytes → Type 0
IsPart p = (2 ≤ length p) × (ends_with_line_end p ≡ false)

abbrev pub joined : List Bytes → Bytes
joined [] = []
joined (p ∷ ps) = p ++ joined ps

abbrev pub ended : Bytes → Bytes
ended body = body ++ 0x0D ∷ 0x0A ∷ []

get_or-append : (s t : Bytes) (i : ℕ) → get_or (s ++ t) (length s + i) 0 ≡ get_or t i 0
get_or-append [] t i = let e : 0 + i ≡ i = omega arith in rw e refl
get_or-append (c ∷ s) t i =
    let e : suc (length s) + i ≡ suc (length s + i) = omega arith in rw e (get_or-append s t i)

take-append : (s t : Bytes) → take (length s) (s ++ t) ≡ s
take-append [] t = refl
take-append (c ∷ s) t = ap (λ u. c ∷ u) (take-append s t)

length-ended : (s : Bytes) → length (ended s) ≡ length s + 2
length-ended s = omega (arith, length-append s (0x0D ∷ 0x0A ∷ []))

handle_user_data-ended :
    (body d : Bytes)
    → length d + length body + 2 ≤ 200
    → handle_user_data (ended body) d ≡ line (d ++ body)
unfolding handle_user_data
handle_user_data-ended body d h =
    let e = length-ended body in
    let i : length (ended body) - 2 ≡ length body + 0 = omega (arith, e) in
    let j : length (ended body) - 1 ≡ length body + 1 = omega (arith, e) in
    let k : length (ended body) - 2 ≡ length body = omega (arith, e) in
    let tail : Bytes = 0x0D ∷ 0x0A ∷ [] in
    let cr : get_or (ended body) (length (ended body) - 2) 0 ≡ 0x0D =
      ap (λ n. get_or (ended body) n 0) i ∙ get_or-append body tail 0 in
    let lf : get_or (ended body) (length (ended body) - 1) 0 ≡ 0x0A =
      ap (λ n. get_or (ended body) n 0) j ∙ get_or-append body tail 1 in
    let front : take (length (ended body) - 2) (ended body) ≡ body =
      ap (λ n. take n (ended body)) k ∙ take-append body tail in
    let small : ltb 200 (length d + length (ended body)) ≡ false = ground (arith, e) in
    let enough : ltb (length (ended body)) 2 ≡ false = ground (arith, e) in
    rw (small, enough, cr, lf, front, handle_user_data) refl

handle_user_data-part :
    (p d : Bytes) → IsPart p → length d + length p ≤ 200 → handle_user_data p d ≡ part (d ++ p)
unfolding handle_user_data
handle_user_data-part p d h l = ground arith

read_open :
    (input : Bytes) (s t : Session)
    → s.is_open ≡ true
    → handle_read input s ≡ some t
    → read_if_open input s ≡ some t
read_open input s t o h = ground arith

-- In an open session, a line that arrives in pieces of at least two bytes, none of which but the last ends with a line
-- end, is answered as a whole, after the text that was collected before, if all of it has at most 200
-- bytes.
pub handle_reads-answer :
    (pieces : List Bytes) (body : Bytes) (s : Session)
    → s.is_open ≡ true
    → All IsPart pieces
    → length s.user_data + length (joined pieces) + length body + 2 ≤ 200
    → handle_reads (pieces ++ ended body ∷ []) s
      ≡ some (answer ((s.user_data ++ joined pieces) ++ body) s)
unfolding handle_reads handle_read answer command_of
handle_reads-answer [] body s o h l =
    let fed = handle_user_data-ended body s.user_data (omega arith) in
    let step =
      read_open (ended body) s (answer (s.user_data ++ body) s) o (rw (fed, handle_read) refl) in
    rw (step, handle_reads) (ap (λ u. some (answer (u ++ body) s)) (sym (append-nil s.user_data)))
handle_reads-answer (p ∷ ps) body s o h l =
    let fed =
      handle_user_data-part p s.user_data h.0 (omega (arith, length-append p (joined ps))) in
    let t : Session = record s { user_data = s.user_data ++ p } in
    let rest =
      handle_reads-answer ps body t o h.1
        (omega (arith, length-append p (joined ps), length-append s.user_data p)) in
    let step = read_open p s t o (rw (fed, handle_read) refl) in
    rw (step, handle_reads)
      (rest ∙ ap (λ u. some (answer (u ++ body) s)) (append_assoc s.user_data p (joined ps)))
