-- ===== src/Crypt/Kdf.antt =====
-- internal/crypt/kdf.go: the accepted costs of Argon2id, the bounds of a secret, and the derivation.
-- argon2.IDKey and utf8.Valid are parameters; the semaphore of the gate only delays.
pub mod Window
use slivingdoc.Base.{
  ℕ, ◌*◌, ◌%◌, ◌^◌, Bool, true, false, not, ◌||◌, List, [], ◌∷◌, Bytes, length, ltb, leb,
  if◌then◌else◌, Result, ok, err, ◌>>=◌, ◌>>◌, require, ◌==◌, nat_eq,
}
use slivingdoc.Crypt.Door.{KdfParams}

pub record KdfWindow : Type 0 where
  pub min_memory_kib : ℕ
  pub max_memory_kib : ℕ
  pub min_iterations : ℕ
  pub max_iterations : ℕ
  pub min_parallelism : ℕ
  pub max_parallelism : ℕ

pub data KdfError : Type 0 where
  kdf_params : KdfError
  secret_bounds : KdfError
  kdf_gate : KdfError

abbrev pub max_secret_bytes : ℕ
max_secret_bytes = 1024

abbrev pub canonical_window : KdfWindow
canonical_window = record {
  min_memory_kib = 65536;
  max_memory_kib = 262144;
  min_iterations = 1;
  max_iterations = 3;
  min_parallelism = 1;
  max_parallelism = 4;
}

abbrev pub default_kdf_params : KdfParams
default_kdf_params = record { memory_kib = 262144; iterations = 3; parallelism = 4 }

unfoldable pub validate_params : KdfWindow → KdfParams → Result KdfError (Unit {0})
validate_params w p = do
  require (not (ltb p.memory_kib w.min_memory_kib || ltb w.max_memory_kib p.memory_kib))
      KdfError.kdf_params
  require (not (ltb p.iterations w.min_iterations || ltb w.max_iterations p.iterations))
      KdfError.kdf_params
  require (not (ltb p.parallelism w.min_parallelism || ltb w.max_parallelism p.parallelism))
      KdfError.kdf_params

-- `newKDFGate`: the gate is its window.
unfoldable pub new_kdf_gate : ℕ → KdfWindow → Result KdfError KdfWindow
new_kdf_gate max_jobs window = do require (not (ltb max_jobs 1)) KdfError.kdf_gate; ok window

abbrev pub lowered : KdfParams → KdfWindow
lowered cost =
    if ltb cost.memory_kib canonical_window.min_memory_kib
    then record canonical_window { min_memory_kib = cost.memory_kib }
    else canonical_window

-- The product of eight and the lanes is taken in 32 bits.
unfoldable pub new_kdf_gate_for_cost : ℕ → KdfParams → Result KdfError KdfWindow
new_kdf_gate_for_cost max_jobs cost = do
  require
      (not (
        ltb cost.memory_kib (8 * cost.parallelism % 2 ^ 32)
        || ltb canonical_window.max_memory_kib cost.memory_kib))
      KdfError.kdf_params
  validate_params (lowered cost) cost
  new_kdf_gate max_jobs (lowered cost)

-- `utf8.Valid` and `argon2.IDKey`.
pub record KdfLibrary : Type 0 where
  pub valid_utf8 : Bytes → Bool
  pub id_key : Bytes → Bytes → KdfParams → Bytes

module _ (lib : KdfLibrary) where
  unfoldable pub validate_secret : Bytes → Result KdfError (Unit {0})
  validate_secret secret = do
    require (not (length secret == 0)) KdfError.secret_bounds
    require (not (ltb max_secret_bytes (length secret))) KdfError.secret_bounds
    require (lib.valid_utf8 secret) KdfError.secret_bounds

  unfoldable pub derive_kek : KdfWindow → Bytes → Bytes → KdfParams → Result KdfError Bytes
  derive_kek window secret salt params = do
    validate_secret secret
    validate_params window params
    ok (lib.id_key secret salt params)
