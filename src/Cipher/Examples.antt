-- ===== src/Cipher/Examples.antt =====
-- The nonce theorem at a concrete cipher.
use obsidian_vpn.Base.{◌≢◌, arith}
use obsidian_vpn.Cipher.{nonce}
use obsidian_vpn.Cipher.Concrete.{plain_cipher}
use obsidian_vpn.Cipher.Nonce.{advance, nonce_fresh}

nonce_fresh_example : nonce (advance 300 plain_cipher) ≢ nonce plain_cipher
nonce_fresh_example =
    nonce_fresh plain_cipher 300 (omega arith) (omega arith) (omega arith) (omega arith)
