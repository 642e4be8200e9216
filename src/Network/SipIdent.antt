-- ===== src/Network/SipIdent.antt =====
-- The search for the text "SIP/2.0" in `UdpHandler::worker`, src/network/UdpHandler.cpp.
use callx.Prelude.{
  ℕ, zero, suc, ◌+◌, ◌-◌, ◌%◌, ◌^◌, ◌≤◌, ◌<◌, ◌≡◌, ◌↔◌, inl, inr, Bool, true, false, List, [], ◌∷◌,
  arith, if◌then◌else◌, ◌==◌, not, ◌&&◌, Bool-cases,
}

-- `sipIdentStr` without its first character
abbrev pub sip_ident_tail : List ℕ
sip_ident_tail = b'I' ∷ b'P' ∷ b'/' ∷ b'2' ∷ b'.' ∷ b'0' ∷ []

-- `strlen(sipIdentStr)`
abbrev pub sip_ident_len : ℕ
sip_ident_len = 7

-- The inner loop, at the offset `j` from the remaining characters: it ends at a mismatch, and also
-- as soon as `is_sip` is seen to be set.
unfoldable pub compare_tail : (ℕ → ℕ) → ℕ → Bool → List ℕ → Bool
compare_tail b j is_sip [] = is_sip
compare_tail b j is_sip (x ∷ xs) =
    let rest = compare_tail b (j + 1) is_sip xs in
    if not (b j == x) then false else if is_sip then is_sip else rest

-- The outer loop from `i` for `n` more rounds.
unfoldable pub search_from : (ℕ → ℕ) → ℕ → ℕ → Bool
unfolding compare_tail
search_from b i zero = false
search_from b i (suc n) =
    let rest = search_from b (i + 1) n in
    if (if b i == b'S' then compare_tail b (i + 1) true sip_ident_tail else false)
    then true
    else rest

-- The rounds: `minSipSize - sipIdentStrLen`, of `size_t`. The counter, a `u_int`, is taken as
-- unbounded, which it is in effect for a minimum below 2^32.
unfoldable pub is_sip : (ℕ → ℕ) → ℕ → Bool
is_sip b min_sip_size = search_from b 0 ((min_sip_size + 2 ^ 64 - sip_ident_len) % 2 ^ 64)

search_from_hit :
    (b : ℕ → ℕ) (i n : ℕ)
    → search_from b i n ≡ true
    → (j : ℕ) × (i ≤ j) × (j < i + n) × (b j ≡ b'S') × (b (j + 1) ≡ b'I')
unfolding search_from
search_from_hit b i zero h = cc
search_from_hit b i (suc n) h = elim (Bool-cases (b i == b'S' && b (i + 1) == b'I')) [
  | inl hit ↦ (i, omega arith, omega arith, ground arith, ground arith)
  | inr miss ↦
      let (j, l, u, s, t) = search_from_hit b (i + 1) n (ground arith) in
      (j, omega arith, omega arith, s, t)
]

search_from_finds :
    (b : ℕ → ℕ) (i n j : ℕ)
    → i ≤ j
    → j < i + n
    → b j ≡ b'S'
    → b (j + 1) ≡ b'I'
    → search_from b i n ≡ true
unfolding search_from
search_from_finds b i zero j l u s t = absurd (omega arith)
search_from_finds b i (suc n) j l u s t = elim (Bool-cases (i == j)) [
  | inl here ↦ ground arith
  | inr later ↦ ground (arith, search_from_finds b (i + 1) n j)
]

-- With a configured minimum of at least 7 and below 2^32, a packet counts as SIP exactly when the two
-- characters "SI" stand at an offset below the minimum less 7.
pub is_sip_iff :
    (b : ℕ → ℕ) (min_sip_size : ℕ)
    → sip_ident_len ≤ min_sip_size
    → min_sip_size < 2 ^ 32
    → (is_sip b min_sip_size ≡ true)
      ↔ ((j : ℕ) × (j + sip_ident_len < min_sip_size) × (b j ≡ b'S') × (b (j + 1) ≡ b'I'))
unfolding is_sip
is_sip_iff b m l u = (
  (λ h. let (j, _, v, s, t) = search_from_hit b 0 _ h in (j, omega arith, s, t)),
  (λ e. search_from_finds b 0 _ e.0 (omega arith) (omega arith) e.2 e.3),
)
