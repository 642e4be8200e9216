-- ===== src/Network/SocketAddress.antt =====
-- src/network/SocketAddress.{hpp,cpp}, over a type `A` of IP addresses: `boost::asio::ip::address`,
-- of which the code uses the equality and the order, the interface `Key A`.
use callx.Prelude.{
  ℕ, ◌≡◌, ◌↔◌, ◌⊎◌, inl, inr, Bool, true, false, not, ◌&&◌, ◌||◌, arith, Key, same, before,
  same_iff, ltb, ◌==◌, Bool-cases,
}

-- `transportProtoEnum`: the number of the IP protocol, 0xFF where none is set.
abbrev pub tp_tcp : ℕ
tp_tcp = 0x6

abbrev pub tp_udp : ℕ
tp_udp = 0x11

abbrev pub tp_undefined : ℕ
tp_undefined = 0xFF

pub record SocketAddress (A : Type 0) : Type 0 where
  pub ip : A
  pub port : ℕ
  pub proto : ℕ

module _ {A : Type 0} ⦃k : Key A⦄ where
  -- `operator<`
  unfoldable pub less : SocketAddress A → SocketAddress A → Bool
  less a b =
      before a.ip b.ip
      || (same a.ip b.ip && ltb a.port b.port)
      || (same a.ip b.ip && a.port == b.port && ltb a.proto b.proto)

  -- `operator==`
  unfoldable pub equal : SocketAddress A → SocketAddress A → Bool
  equal a b = same a.ip b.ip && a.port == b.port && a.proto == b.proto

  -- `operator!=`
  unfoldable pub unequal : SocketAddress A → SocketAddress A → Bool
  unfolding equal
  unequal a b = not (equal a b)

  -- `operator>`
  unfoldable pub greater : SocketAddress A → SocketAddress A → Bool
  unfolding less
  greater a b = not (less b a)

  pub equal_iff : (a b : SocketAddress A) → (equal a b ≡ true) ↔ (a ≡ b)
  unfolding equal
  equal_iff a b =
      ((λ h. ground (arith, same_iff a.ip b.ip)), (λ h. ground (arith, same_iff a.ip b.ip)))

  instance abbrev pub socket_key : Key (SocketAddress A)
  socket_key = record { beq = equal; less = less; beq_iff = equal_iff }

-- What `std::map` asks of an order.
pub record IsStrictOrder {A : Type 0} (lt : A → A → Bool) : Type 0 where
  pub irrefl : (a : A) → lt a a ≡ false
  pub trans : (a b c : A) → lt a b ≡ true → lt b c ≡ true → lt a c ≡ true
  pub total : (a b : A) → lt a b ≡ false → lt b a ≡ false → a ≡ b

module _ {A : Type 0} ⦃k : Key A⦄ (order : IsStrictOrder {A = A} before) where
  -- Over a strict total order of the IP addresses, `operator<` is a strict total order of the socket
  -- addresses.
  pub less-IsStrictOrder : IsStrictOrder {A = SocketAddress A} less
  unfolding less
  less-IsStrictOrder = record {
    irrefl = λ a. ground (arith, order.irrefl a.ip);
    trans = λ a b c h l. ground (
      arith,
      order.trans a.ip b.ip c.ip,
      same_iff a.ip b.ip,
      same_iff b.ip c.ip,
      same_iff a.ip c.ip,
    );
    total =
        λ a b h l. ground (arith, order.total a.ip b.ip, same_iff a.ip b.ip, same_iff b.ip a.ip);
  }

  -- Over a strict total order of the IP addresses, `operator>` holds of two socket addresses exactly
  -- when the first is less than the second or equal to it.
  greater_iff : (a b : SocketAddress A) → (greater a b ≡ true) ↔ ((less a b ≡ true) ⊎ (a ≡ b))
  unfolding greater
  greater_iff a b = (
    (λ h. elim (Bool-cases (less a b)) [
      | inl l ↦ inl l
      | inr l ↦ inr (less-IsStrictOrder.total a b l (ground arith))
    ]),
    (λ h. elim h [
      | inl l ↦ elim (Bool-cases (less b a)) [
        | inl m ↦ ground (arith, less-IsStrictOrder.trans a b a l m, less-IsStrictOrder.irrefl a)
        | inr m ↦ rw m
      ]
      | inr e ↦ rw (e, less-IsStrictOrder.irrefl b)
    ]),
  )
