-- ===== src/Guardian/Wallet.antt =====
-- The FNV-1a hashes of a wallet in Guardian/src/guardian.cpp.
use nicechunk_guardian.Base.{
  ℕ, ◌*◌, ◌%◌, ◌^◌, Bool, true, false, ◌&&◌, ◌==◌, if◌then◌else◌, [], ◌∷◌, bit_xor,
}
use nicechunk_guardian.Wire.{Bytes}

-- The loop, on a type of `2 ^ bits` values.
unfoldable pub fnv : ℕ → ℕ → ℕ → Bytes → ℕ
fnv bits prime hash [] = hash
fnv bits prime hash (value ∷ wallet) = fnv bits prime (bit_xor hash value * prime % 2 ^ bits) wallet

unfoldable pub hash_wallet : Bytes → ℕ
unfolding fnv
hash_wallet wallet = let hash = fnv 32 16777619 2166136261 wallet in if hash == 0 then 1 else hash

unfoldable pub fingerprint_wallet : Bytes → ℕ
unfolding fnv
fingerprint_wallet wallet =
    let hash = fnv 64 1099511628211 14695981039346656037 wallet in if hash == 0 then 1 else hash

-- `==` on the bytes of two wallets.
unfoldable pub wallet_equal : Bytes → Bytes → Bool
wallet_equal [] [] = true
wallet_equal [] (b ∷ bs) = false
wallet_equal (a ∷ rest) [] = false
wallet_equal (a ∷ rest) (b ∷ bs) = a == b && wallet_equal rest bs
