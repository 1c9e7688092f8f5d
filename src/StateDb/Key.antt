-- ===== src/StateDb/Key.antt =====
-- `struct rsvp_path_key` as src/pi/rsvp_state_db.c compares and hashes it.
use rsvp_te.Prelude.{ℕ, ◌+◌, ◌*◌, ◌/◌, ◌%◌, ◌^◌, ◌<◌, ◌≡◌, ◌↔◌, Bool, true, ◌==◌, ◌&&◌, arith}
use rsvp_te.Wire.Parser.{PathKey}

abbrev pub hash_size : ℕ
hash_size = 1024

-- A field in network order as a little-endian host reads it.
abbrev pub swap16 : ℕ → ℕ
swap16 x = x % 256 * 256 + x / 256 % 256

abbrev pub swap32 : ℕ → ℕ
swap32 x = swap16 (x % 2 ^ 16) * 2 ^ 16 + swap16 (x / 2 ^ 16)

-- `hash` is a `uint32_t`; the reserved fields are left out.
unfoldable pub rsvp_key_hash : PathKey → ℕ
rsvp_key_hash key =
    let h1 = swap32 key.dest_addr % 2 ^ 32 in
    let h2 = (h1 * 31 + swap16 key.tunnel_id) % 2 ^ 32 in
    let h3 = (h2 * 31 + swap32 key.extended_tunnel_id) % 2 ^ 32 in
    let h4 = (h3 * 31 + swap32 key.source_addr) % 2 ^ 32 in
    (h4 * 31 + swap16 key.lsp_id) % 2 ^ 32 % hash_size

-- `memcmp(…) == 0`, the reserved fields included.
unfoldable pub same_key : PathKey → PathKey → Bool
same_key a b =
    a.dest_addr == b.dest_addr
    && (a.session_reserved == b.session_reserved
        && (a.tunnel_id == b.tunnel_id
            && (a.extended_tunnel_id == b.extended_tunnel_id
                && (a.source_addr == b.source_addr
                    && (a.sender_reserved == b.sender_reserved && a.lsp_id == b.lsp_id)))))

pub hash-lt : (key : PathKey) → rsvp_key_hash key < hash_size
unfolding rsvp_key_hash
hash-lt key = omega arith

pub same_key_iff : (a b : PathKey) → (same_key a b ≡ true) ↔ (a ≡ b)
unfolding same_key
same_key_iff a b = (λ e. ground arith, λ e. ground arith)
