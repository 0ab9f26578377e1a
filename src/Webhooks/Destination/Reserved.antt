-- ===== src/Webhooks/Destination/Reserved.antt =====
-- The addresses of version 4 that are blocked, octet by octet.
use cell_flow.Prelude.{ℕ, ◌+◌, ◌*◌, ◌<◌, ◌≡◌, arith, Bool, ◌&&◌, ◌||◌, [], ◌∷◌, nat_beq, leb, ltb}
use cell_flow.Webhooks.Destination.{blocked_octets, in_v4_range, ipv4_to_int}

-- This network, private networks, shared addresses, loopback, link-local addresses, protocol
-- assignments, documentation, benchmarks, multicast and what is reserved.
abbrev pub is_reserved : ℕ → ℕ → ℕ → Bool
is_reserved a b c =
    nat_beq a 0
    || nat_beq a 10
    || (nat_beq a 100 && leb 64 b && ltb b 128)
    || nat_beq a 127
    || (nat_beq a 169 && nat_beq b 254)
    || (nat_beq a 172 && leb 16 b && ltb b 32)
    || (nat_beq a 192 && nat_beq b 0 && (nat_beq c 0 || nat_beq c 2))
    || (nat_beq a 192 && nat_beq b 168)
    || (nat_beq a 198 && (nat_beq b 18 || nat_beq b 19))
    || (nat_beq a 198 && nat_beq b 51 && nat_beq c 100)
    || (nat_beq a 203 && nat_beq b 0 && nat_beq c 113)
    || leb 224 a

module _ (a b c d : ℕ) (ha : a < 256) (hb : b < 256) (hc : c < 256) (hd : d < 256) where
  to_int : ipv4_to_int (a ∷ b ∷ c ∷ d ∷ []) ≡ a * 16777216 + b * 65536 + c * 256 + d
  to_int = omega arith

  in_8 : (k : ℕ) → k < 256 → in_v4_range (a ∷ b ∷ c ∷ d ∷ []) (k ∷ 0 ∷ 0 ∷ 0 ∷ []) 8 ≡ nat_beq a k
  unfolding in_v4_range
  in_8 k hk = ground arith

  in_16 :
      (k l : ℕ)
      → k < 256
      → l < 256
      → in_v4_range (a ∷ b ∷ c ∷ d ∷ []) (k ∷ l ∷ 0 ∷ 0 ∷ []) 16 ≡ (nat_beq a k && nat_beq b l)
  unfolding in_v4_range
  in_16 k l hk hl = ground arith

  in_24 :
      (k l m : ℕ)
      → k < 256
      → l < 256
      → m < 256
      → in_v4_range (a ∷ b ∷ c ∷ d ∷ []) (k ∷ l ∷ m ∷ 0 ∷ []) 24
        ≡ (nat_beq a k && nat_beq b l && nat_beq c m)
  unfolding in_v4_range
  in_24 k l m hk hl hm = ground arith

  in_shared :
      in_v4_range (a ∷ b ∷ c ∷ d ∷ []) (100 ∷ 64 ∷ 0 ∷ 0 ∷ []) 10
      ≡ (nat_beq a 100 && leb 64 b && ltb b 128)
  unfolding in_v4_range
  in_shared = ground arith

  in_private :
      in_v4_range (a ∷ b ∷ c ∷ d ∷ []) (172 ∷ 16 ∷ 0 ∷ 0 ∷ []) 12
      ≡ (nat_beq a 172 && leb 16 b && ltb b 32)
  unfolding in_v4_range
  in_private = ground arith

  in_benchmarks :
      in_v4_range (a ∷ b ∷ c ∷ d ∷ []) (198 ∷ 18 ∷ 0 ∷ 0 ∷ []) 15
      ≡ (nat_beq a 198 && (nat_beq b 18 || nat_beq b 19))
  unfolding in_v4_range
  in_benchmarks = ground arith

  in_multicast :
      in_v4_range (a ∷ b ∷ c ∷ d ∷ []) (224 ∷ 0 ∷ 0 ∷ 0 ∷ []) 4 ≡ (leb 224 a && ltb a 240)
  unfolding in_v4_range
  in_multicast = ground arith

  in_future : in_v4_range (a ∷ b ∷ c ∷ d ∷ []) (240 ∷ 0 ∷ 0 ∷ 0 ∷ []) 4 ≡ leb 240 a
  unfolding in_v4_range
  in_future = ground arith

  -- The ranges block exactly the reserved addresses.
  pub blocked_octets_lem : blocked_octets (a ∷ b ∷ c ∷ d ∷ []) ≡ is_reserved a b c
  unfolding blocked_octets
  blocked_octets_lem = ground (
    arith,
    in_8 0 (omega arith),
    in_8 10 (omega arith),
    in_8 127 (omega arith),
    in_16 169 254 (omega arith) (omega arith),
    in_16 192 168 (omega arith) (omega arith),
    in_24 192 0 0 (omega arith) (omega arith) (omega arith),
    in_24 192 0 2 (omega arith) (omega arith) (omega arith),
    in_24 198 51 100 (omega arith) (omega arith) (omega arith),
    in_24 203 0 113 (omega arith) (omega arith) (omega arith),
    in_shared,
    in_private,
    in_benchmarks,
    in_multicast,
    in_future,
  )
