-- ===== src/CiRunner/Digest.antt =====
-- What the crate takes from `serde_json` and `blake3`, as a parameter: `to_vec` serializes a tuple
-- or struct of facts, or fails, and `blake3_hex` is the hexadecimal text of the bytes' digest.
use onix_core.Base.{ℕ, String, true, Option, List, ◌≡◌}
use onix_core.CiRunner.Types.{LockIdentityV1, TriggerClass, RunnerDisposition, ℤ}
use onix_core.CiRunner.Checks.{blake3_digest}

-- One serialized element: the types that the source's tuples and structs hold.
pub data Fact : Type 0 where
  text : String → Fact
  texts : List String → Fact
  number : ℕ → Fact
  optional_text : Option String → Fact
  optional_int : Option ℤ → Fact
  trigger_class : TriggerClass → Fact
  runner_disposition : RunnerDisposition → Fact
  lock_identity : LockIdentityV1 → Fact

pub record Digest : Type 0 where
  pub to_vec : List Fact → Option (List ℕ)
  pub blake3_hex : List ℕ → String

-- `to_hex` of a BLAKE3 digest is 64 lower-case hexadecimal characters.
pub record HexDigest (d : Digest) : Type 0 where
  pub hex : (bytes : List ℕ) → blake3_digest (d.blake3_hex bytes) ≡ true
