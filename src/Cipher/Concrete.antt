-- ===== src/Cipher/Concrete.antt =====
-- Values that meet what `Aead` and `Rand` ask for, to run the models with.
use obsidian_vpn.Base.{
  ℕ, ◌+◌, ◌-◌, ◌≡◌, List, ◌++◌, Option, none, some, arith, ltb, if◌then◌else◌, length, take,
  replicate, length-append, length-replicate, take-append, le→ltb, ap, false,
}
use obsidian_vpn.Cipher.{Aead, Cipher, Rand}

-- The plaintext and sixteen zeros.
abbrev pub plain_seal : List ℕ → List ℕ → List ℕ → List ℕ
plain_seal nonce plaintext aad = plaintext ++ replicate 16 0

abbrev pub plain_unseal : List ℕ → List ℕ → List ℕ → Option (List ℕ)
plain_unseal nonce ct aad = if ltb (length ct) 16 then none else some (take (length ct - 16) ct)

pub plain_length : (xs : List ℕ) → length (xs ++ replicate 16 0) ≡ length xs + 16
plain_length xs = omega (arith, length-append xs (replicate 16 0), length-replicate {A = ℕ} 16 0)

pub plain_unseal-seal :
    (nonce p aad : List ℕ) → plain_unseal nonce (plain_seal nonce p aad) aad ≡ some p
plain_unseal-seal nonce p aad =
    let ct = p ++ replicate 16 0 in
    let long : ltb (length ct) 16 ≡ false = le→ltb _ _ (omega (arith, plain_length p)) in
    let rest : length ct - 16 ≡ length p = omega (arith, plain_length p) in
    rw (long, rest) (ap some (take-append p (replicate 16 0)))

abbrev pub plain_aead : Aead
plain_aead = record {
  seal = plain_seal;
  unseal = plain_unseal;
  unseal-seal = plain_unseal-seal;
  length-seal = λ nonce p aad. plain_length p;
}

abbrev pub plain_cipher : Cipher
plain_cipher = record { aead = plain_aead; base_iv = replicate 12 7; counter = 5 }

abbrev pub lowest_draws : Rand
lowest_draws = record {
  int_n = λ n. 0;
  uint32_n = λ n. 0;
  uint64 = λ i. i;
  int_n-lt = λ n h. h;
  uint32_n-lt = λ n h. h;
}
