-- ===== src/Identity.antt =====
-- src/info_hash.c and src/peer_id.c: the two identifiers of 20 bytes. A result false is an exit of the
-- part.
use loco.Base.{
  ℕ, Bool, not, Option, none, some, [], ◌∷◌, ◌++◌, Bytes, codes, copy_at, length, replicate, ◌-◌,
  ◌==◌,
}
use loco.Resources.{
  digest_context, Program, ◌>>=◌, ◌>>◌, or_exit, acquire_or_exit, unless_exit, releasing,
}
use loco.Files.{when}

-- The calls of OpenSSL: whether a context is given, whether the first two calls return 1, and the digest
-- that the last one writes, none where it does not return 1.
pub record Digest : Type 0 where
  pub context : Bool
  pub initialised : Bool
  pub updated : Bool
  pub final : Bytes → Option Bytes

abbrev pub info_hash_length : ℕ
info_hash_length = 20

unfoldable pub compute_info_hash : Digest → Bytes → Program Bytes
compute_info_hash digest bytes = do
  acquire_or_exit digest_context [] (when digest.context tt)
  unless_exit (digest_context ∷ []) (not digest.initialised)
  unless_exit (digest_context ∷ []) (not digest.updated)
  temp_hash ← or_exit (digest_context ∷ []) (digest.final bytes)
  unless_exit (digest_context ∷ []) (not (length temp_hash == info_hash_length))
  releasing (digest_context ∷ []) temp_hash

abbrev pub peer_id_prefix : Bytes
peer_id_prefix = codes "-LO0001-"

abbrev pub peer_id_length : ℕ
peer_id_length = 20

abbrev with_random : Bytes → Option Bytes → Option Bytes
with_random temp_peer_id none = none
with_random temp_peer_id (some random) = some (copy_at temp_peer_id (length peer_id_prefix) random)

-- `RAND_bytes` of OpenSSL gives so many bytes, or none.
unfoldable pub generate_peer_id : (ℕ → Option Bytes) → Option Bytes
generate_peer_id rand_bytes =
    with_random (peer_id_prefix ++ replicate (peer_id_length - length peer_id_prefix) 0)
      (rand_bytes (peer_id_length - length peer_id_prefix))
