-- ===== src/Crypto.antt =====
-- server/crypto.go and client/crypto.go: the check of a key. The cipher is the KCP library's: whether it
-- refuses the key is an argument.
use kcpq.Prelude.{ℕ, Bool, not, Option, none, some, Bytes, ◌==◌, if◌then◌else◌, length}

pub data CryptError : Type 0 where
  bad_key_length : ℕ → CryptError
  cipher_error : CryptError

-- `none` where the code returns a cipher.
unfoldable pub new_aes256_block_crypt : Bytes → (refused : Bool) → Option CryptError
new_aes256_block_crypt key refused =
    if not (length key == 32)
    then some (bad_key_length (length key))
    else if refused
    then some cipher_error
    else none
