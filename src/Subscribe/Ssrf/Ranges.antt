-- ===== src/Subscribe/Ssrf/Ranges.antt =====
-- The ranges of ssrf.rs as ranges of 32-bit numbers.
use clash_verge_cli.Prelude.{
  ◌≡◌, refl, Bool, true, false, ◌&&◌, ◌||◌, arith, ℕ, ◌+◌, ◌*◌, ◌<◌, ltb, leb, eqb, false-ne-true,
  is_some,
}
use clash_verge_cli.Subscribe.Ssrf.{
  v4, is_loopback, is_ula_v6, is_private, is_link_local_v4, is_link_local_v6, is_unspecified,
  first_label, blocked_range,
}

-- An IPv4 address as a number.
abbrev pub number_of : ℕ → ℕ → ℕ → ℕ → ℕ
number_of a b c d = ((a * 256 + b) * 256 + c) * 256 + d

abbrev pub in_block : ℕ → ℕ → ℕ → Bool
in_block start size n = leb start n && ltb n (start + size)

-- 0.0.0.0, 10.0.0.0/8, 127.0.0.0/8, 169.254.0.0/16, 172.16.0.0/12 or 192.168.0.0/16
abbrev pub is_internal : ℕ → Bool
is_internal n =
    eqb n 0
    || (in_block 167772160 16777216 n
        || (in_block 2130706432 16777216 n
            || (in_block 2851995648 65536 n
                || (in_block 2886729728 1048576 n || in_block 3232235520 65536 n))))

same_test : (p q : Bool) → (p ≡ true → q ≡ true) → (q ≡ true → p ≡ true) → p ≡ q
same_test true true f g = refl
same_test true false f g = absurd (false-ne-true (f refl))
same_test false true f g = absurd (false-ne-true (g refl))
same_test false false f g = refl

has_label :
    (z t l k m p : Bool)
    → is_some (first_label l (t || (m || p)) k false false z) ≡ (z || (t || (l || (k || (m || p)))))
has_label z t l k m p = ground arith

module _ (a b c d : ℕ) (ha : a < 256) (hb : b < 256) (hc : c < 256) (hd : d < 256) where
  octet-block :
      (k start : ℕ) → start ≡ k * 16777216 → eqb a k ≡ in_block start 16777216 (number_of a b c d)
  octet-block k start e =
      same_test (eqb a k) (in_block start 16777216 (number_of a b c d))
        (λ h. ground (arith, e, ha, hb, hc, hd)) (λ h. ground (arith, e, ha, hb, hc, hd))

  two_octets-block :
      (k j start : ℕ)
      → start ≡ k * 16777216 + j * 65536
      → j < 256
      → (eqb a k && eqb b j) ≡ in_block start 65536 (number_of a b c d)
  two_octets-block k j start e hj =
      same_test _ _ (λ h. ground (arith, e, ha, hb, hc, hd))
        (λ h. ground (arith, e, ha, hb, hc, hd, hj))

  twelve_bits-block :
      (eqb a 172 && (leb 16 b && leb b 31)) ≡ in_block 2886729728 1048576 (number_of a b c d)
  twelve_bits-block =
      same_test _ _ (λ h. ground (arith, ha, hb, hc, hd)) (λ h. ground (arith, ha, hb, hc, hd))

  zero-number : (eqb a 0 && (eqb b 0 && (eqb c 0 && eqb d 0))) ≡ eqb (number_of a b c d) 0
  zero-number =
      same_test _ _ (λ h. ground (arith, ha, hb, hc, hd)) (λ h. ground (arith, ha, hb, hc, hd))

  -- An IPv4 address is refused exactly if it is 0.0.0.0 or, as a number, in one of the blocks 10.0.0.0/8,
  -- 127.0.0.0/8, 169.254.0.0/16, 172.16.0.0/12 and 192.168.0.0/16.
  pub blocked_range-internal :
      is_some (blocked_range (v4 a b c d)) ≡ is_internal (number_of a b c d)
  unfolding blocked_range is_loopback is_private is_link_local_v4 is_link_local_v6 is_ula_v6
      is_unspecified
  blocked_range-internal =
      rw⁻¹
        (
          octet-block 10 167772160 refl,
          octet-block 127 2130706432 refl,
          two_octets-block 169 254 2851995648 refl (omega arith),
          twelve_bits-block,
          two_octets-block 192 168 3232235520 refl (omega arith),
          zero-number,
        )
        (has_label (eqb a 0 && (eqb b 0 && (eqb c 0 && eqb d 0))) (eqb a 10) (eqb a 127)
          (eqb a 169 && eqb b 254) (eqb a 172 && (leb 16 b && leb b 31)) (eqb a 192 && eqb b 168))
