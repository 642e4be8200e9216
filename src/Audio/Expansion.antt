-- ===== src/Audio/Expansion.antt =====
-- The tables of src/audio/G711Decoder.cpp against the expansion laws of ITU-T G.711.
use callx.Audio.G711.{decode_tab}
use callx.Audio.Tables.{alaw_decode_tab, ulaw_decode_tab}
use callx.Prelude.{
  ℤ, pos, neg, ℕ, zero, suc, ◌+◌, ◌-◌, ◌*◌, ◌/◌, ◌%◌, ◌^◌, ◌<◌, ◌≡◌, refl, Bool, true, false, List,
  [], ◌∷◌, get_or, if◌then◌else◌, leb, map, arith, ap, sym, ◌∙◌,
}

-- The even bits of an octet, which A-law inverts on the line.
abbrev even_bits : ℕ → ℕ
even_bits c = c % 2 + 4 * (c / 4 % 2) + 16 * (c / 16 % 2) + 64 * (c / 64 % 2)

abbrev toggle : ℕ → ℕ
toggle c = c + 85 - 2 * even_bits c

-- A-law: a sign, a segment of three bits and a step of four within the segment.
abbrev alaw_magnitude : ℕ → ℕ → ℕ
alaw_magnitude zero step = 16 * step + 8
alaw_magnitude (suc segment) step = (16 * step + 264) * 2 ^ segment

abbrev pub alaw_expand : ℕ → ℤ
alaw_expand c =
    let a = toggle c in
    let magnitude = alaw_magnitude (a / 16 % 8) (a % 16) in
    if leb 128 a then pos magnitude else neg magnitude

-- mu-law: all bits are inverted on the line.
abbrev pub ulaw_expand : ℕ → ℤ
ulaw_expand c =
    let u = 255 - c in
    let magnitude = (8 * (u % 16) + 132) * 2 ^ (u / 16 % 8) - 132 in
    if leb 128 u then neg magnitude else pos magnitude

abbrev pub expand : Bool → ℕ → ℤ
expand alaw c = if alaw then alaw_expand c else ulaw_expand c

abbrev count_up : ℕ → ℕ → List ℕ
count_up start zero = []
count_up start (suc n) = start ∷ count_up (start + 1) n

alaw_table : map alaw_expand (count_up 0 256) ≡ alaw_decode_tab
alaw_table = refl

ulaw_table : map ulaw_expand (count_up 0 256) ≡ ulaw_decode_tab
ulaw_table = refl

get_or-count_up :
    (f : ℕ → ℤ) (n start i : ℕ)
    → i < n
    → get_or (map f (count_up start n)) i (pos 0) ≡ f (start + i)
get_or-count_up f zero start i h = absurd (omega (arith, h))
get_or-count_up f (suc n) start zero h = ground arith
get_or-count_up f (suc n) start (suc i) h = ground (arith, get_or-count_up f n (start + 1) i)

entry_of :
    (f : ℕ → ℤ) (tab : List ℤ)
    → map f (count_up 0 256) ≡ tab
    → (c : ℕ) → c < 256
    → get_or tab c (pos 0) ≡ f c
entry_of f tab e c h =
    let start : 0 + c ≡ c = omega arith in
    ap (λ t. get_or t c (pos 0)) (sym e) ∙ get_or-count_up f 256 0 c h ∙ ap f start

-- Both tables hold, at every octet, the sample of the expansion law.
pub decode_tab-expand :
    (alaw : Bool) (c : ℕ) → c < 256 → get_or (decode_tab alaw) c (pos 0) ≡ expand alaw c
decode_tab-expand true c h = entry_of alaw_expand alaw_decode_tab alaw_table c h
decode_tab-expand false c h = entry_of ulaw_expand ulaw_decode_tab ulaw_table c h
