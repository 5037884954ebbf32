-- ===== src/Webhook/Guard/Blocks.antt =====
-- The private IPv4 blocks.
use linkedin_hyper_v.Prelude.{ℕ, ◌+◌, ◌*◌, ◌/◌, ◌<◌, ◌≡◌, ◌⊎◌, ◌↔◌, true, arith}
use linkedin_hyper_v.Webhook.Guard.{is_private_pair}

-- The number of the address `a.b.c.d`.
abbrev pub address_number : ℕ → ℕ → ℕ → ℕ → ℕ
address_number a b c d = a * 16777216 + b * 65536 + c * 256 + d

-- The blocks that are documented as private, by their first and last numbers' common prefix:
-- 0.0.0.0/8, 10.0.0.0/8, 127.0.0.0/8, 100.64.0.0/10, 169.254.0.0/16, 172.16.0.0/12 and
-- 192.168.0.0/16.
abbrev pub InPrivateBlock : ℕ → Type 0
InPrivateBlock n =
    (n / 16777216 ≡ 0)
    ⊎ (n / 16777216 ≡ 10)
    ⊎ (n / 16777216 ≡ 127)
    ⊎ (n / 4194304 ≡ 401)
    ⊎ (n / 65536 ≡ 43518)
    ⊎ (n / 1048576 ≡ 2753)
    ⊎ (n / 65536 ≡ 49320)

pub is_private_pair_iff :
    (a b c d : ℕ)
    → a < 256
    → b < 256
    → c < 256
    → d < 256
    → (is_private_pair a b ≡ true) ↔ InPrivateBlock (address_number a b c d)
unfolding is_private_pair
is_private_pair_iff a b c d ha hb hc hd = ground arith
