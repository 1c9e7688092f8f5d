-- ===== src/Dispatcher/Header.antt =====
-- The IP header that `rsvp_send_packet` of src/pi/rsvp_dispatcher.c makes.
use rsvp_te.Prelude.{
  ℕ, ◌+◌, ◌-◌, ◌*◌, ◌/◌, ◌%◌, ◌^◌, ◌<◌, ◌≡◌, refl, Bool, true, false, List, [], ◌∷◌, ◌++◌,
  if◌then◌else◌, length, arith, AllBytes,
}
use rsvp_te.Wire.{read8, read32}
use rsvp_te.Wire.Checksum.{rsvp_checksum}
use rsvp_te.Wire.Checksum.Sum.{word_sum, ones_sum}
use rsvp_te.Wire.Checksum.Detect.{rsvp_checksum_ref}
use rsvp_te.Dispatcher.{optlen, options, blank_options, iphdr, ip_header}

module _ (total_len ttl src dest : ℕ) where
  pub length-ip_header :
      (use_rao : Bool) → length (ip_header use_rao total_len ttl src dest) ≡ 20 + optlen use_rao
  unfolding ip_header rsvp_checksum
  length-ip_header true = refl
  length-ip_header false = refl

  pub ip_header-ihl :
      (use_rao : Bool)
      → read8 (ip_header use_rao total_len ttl src dest) 0 % 16 * 4 ≡ 20 + optlen use_rao
  unfolding ip_header rsvp_checksum
  ip_header-ihl true = refl
  ip_header-ihl false = refl

  -- The addresses in the header, as the parser reads them.
  pub ip_header-addresses :
      (use_rao : Bool) (rest : List ℕ)
      → src < 2 ^ 32
      → dest < 2 ^ 32
      → (read32 (ip_header use_rao total_len ttl src dest ++ rest) 12 ≡ src)
        × (read32 (ip_header use_rao total_len ttl src dest ++ rest) 16 ≡ dest)
  unfolding ip_header rsvp_checksum
  ip_header-addresses true rest hs hd = (omega arith, omega arith)
  ip_header-addresses false rest hs hd = (omega arith, omega arith)

-- A checksum that is added to the words it was made of, and one that is added to more.
sum_with_check : (w : ℕ) → 0 < w → 65535 - ones_sum (w + (65535 - ones_sum w)) ≡ 0
sum_with_check w h = ground arith

sum_with_options : (w : ℕ) → 0 < w → 65535 - ones_sum (w + (65535 - ones_sum w) + 37892) ≡ 27643
sum_with_options w h = ground arith

module _ (total_len ttl src dest : ℕ) (h : ttl < 256) where
  -- The words of the header with the checksum `s` in its field.
  iphdr-word_sum :
      (use_rao : Bool) (s : ℕ)
      → s < 2 ^ 16
      → word_sum (iphdr use_rao total_len ttl src dest (s / 256 ∷ s % 256 ∷ []) ++ options use_rao)
        ≡ word_sum (iphdr use_rao total_len ttl src dest (0 ∷ 0 ∷ []) ++ blank_options use_rao)
          + s
          + (if use_rao then 37892 else 0)
  unfolding iphdr
  iphdr-word_sum true s b = omega arith
  iphdr-word_sum false s b = omega arith

  iphdr-AllBytes :
      (use_rao : Bool) (c d : ℕ)
      → c < 256
      → d < 256
      → AllBytes (iphdr use_rao total_len ttl src dest (c ∷ d ∷ []) ++ options use_rao)
        × AllBytes (iphdr use_rao total_len ttl src dest (c ∷ d ∷ []) ++ blank_options use_rao)
  unfolding iphdr
  iphdr-AllBytes true c d hc hd = ground arith
  iphdr-AllBytes false c d hc hd = ground arith

  iphdr-short :
      (use_rao : Bool) (c d : ℕ)
      → (length (iphdr use_rao total_len ttl src dest (c ∷ d ∷ []) ++ options use_rao) < 2 ^ 16)
        × (length (iphdr use_rao total_len ttl src dest (c ∷ d ∷ []) ++ blank_options use_rao)
            < 2 ^ 16)
        × (0
            < word_sum (iphdr use_rao total_len ttl src dest (c ∷ d ∷ []) ++ blank_options use_rao))
  unfolding iphdr
  iphdr-short true c d = (omega arith, omega arith, omega arith)
  iphdr-short false c d = (omega arith, omega arith, omega arith)

-- The checksum of what is sent, as bytes.
checked :
    (use_rao : Bool) (w : ℕ)
    → 0 < w
    → let t = 65535 - ones_sum (w + (65535 - ones_sum w) + (if use_rao then 37892 else 0)) in
      t / 256 ∷ t % 256 ∷ [] ≡ (if use_rao then 107 ∷ 251 ∷ [] else 0 ∷ 0 ∷ [])
checked true w h = rw (sum_with_options w h) refl
checked false w h =
    let none_added : 65535 - ones_sum (w + (65535 - ones_sum w) + 0) ≡ 0 = ground arith in
    rw none_added refl

-- The checksum that a receiver computes over the IP header that `rsvp_send_packet` makes, for any lengths,
-- addresses and any byte as the TTL: 0, as it must be, without the Router Alert Option, and 27643, always the
-- same wrong value, with it.
pub ip_header-checksum :
    (use_rao : Bool) (total_len ttl src dest : ℕ)
    → ttl < 256
    → rsvp_checksum (ip_header use_rao total_len ttl src dest)
      ≡ (if use_rao then 107 ∷ 251 ∷ [] else 0 ∷ 0 ∷ [])
unfolding ip_header
ip_header-checksum use_rao total_len ttl src dest h =
    let blank = iphdr use_rao total_len ttl src dest (0 ∷ 0 ∷ []) ++ blank_options use_rao in
    let check = 65535 - ones_sum (word_sum blank) in
    let bytes = iphdr-AllBytes total_len ttl src dest h use_rao in
    let short = iphdr-short total_len ttl src dest h use_rao in
    let (_, blank_short, some_word) = short 0 0 in
    let (sent_short, _, _) = short (check / 256) (check % 256) in
    let filled : rsvp_checksum blank ≡ check / 256 ∷ check % 256 ∷ [] =
      rsvp_checksum_ref blank (bytes 0 0 (omega arith) (omega arith)).1 blank_short in
    rw
      (
        filled,
        rsvp_checksum_ref
            (iphdr use_rao total_len ttl src dest (check / 256 ∷ check % 256 ∷ [])
              ++ options use_rao)
            (bytes (check / 256) (check % 256) (omega arith) (omega arith)).0 sent_short,
        iphdr-word_sum total_len ttl src dest h use_rao check (omega arith),
      )
      (checked use_rao (word_sum blank) some_word)
