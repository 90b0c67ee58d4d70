-- ===== src/Kv/Live.antt =====
-- The time that is left to a key, and the keys that are there. fnmatch.fnmatch is the parameter
-- `matches`, of a name and a pattern.
use zenith_db.Prelude.{ℕ, Bool, Option, none, some, List, [], ◌∷◌, if◌then◌else◌, length}
use zenith_db.Bytes.{Bytes, codes}
use zenith_db.Python.Int.{ℤ, pos, neg, ltb_ℤ}
use zenith_db.Txn.{type_key, exp_key}
use zenith_db.Kv.{◌>>=◌, StoreOps, Clock}
use zenith_db.Kv.Keys.{
  Method, pure, read, scan_all, lifted, is_expired, with_prefix, keys_in, delete,
}
use zenith_db.Kv.Hashes.{named_from}

module _ (ops : StoreOps) (clock : Clock) where
  -- By the type's entry and the expiry's.
  abbrev pub remaining : clock.Time → Option Bytes → Option Bytes → ℤ
  remaining now none exp_bytes = neg (pos 2)
  remaining now (some t) none = neg (pos 1)
  remaining now (some t) (some exp_bytes) = elim (clock.parse exp_bytes) [
    | none ↦ neg (pos 1)
    | some exp_ts ↦
        if ltb_ℤ (clock.left exp_ts now) (pos 0) then neg (pos 2) else clock.left exp_ts now
  ]

  unfoldable pub ttl : clock.Time → Bytes → Method ops clock ℤ
  ttl now key = is_expired ops clock now key >>= λ expired.
      read ops clock (type_key key) >>= λ t_bytes. read ops clock (exp_key key) >>= λ exp_bytes.
      pure ops clock (if expired then neg (pos 2) else remaining now t_bytes exp_bytes)

  module _ (matches : Bytes → Bytes → Bool) where
    -- The loop of `keys`, on the names that the scan gives.
    unfoldable pub matched : clock.Time → Bytes → List Bytes → Method ops clock (List Bytes)
    matched now pattern [] = pure ops clock []
    matched now pattern (key_name ∷ names) = is_expired ops clock now key_name >>= λ expired.
        matched now pattern names >>= λ rest.
        pure ops clock
          (if expired then rest else if matches key_name pattern then key_name ∷ rest else rest)

    unfoldable pub keys : clock.Time → Bytes → Method ops clock (List Bytes)
    keys now pattern = scan_all ops clock (codes "__TYPE__:") >>= λ entries.
        matched now pattern
          (keys_in (named_from (codes "__TYPE__:") (with_prefix (codes "__TYPE__:") entries)))

    unfoldable pub dbsize : clock.Time → Method ops clock ℕ
    dbsize now = keys now (codes "*") >>= λ names. pure ops clock (length names)

    unfoldable pub delete_each : List Bytes → Method ops clock (Unit {0})
    delete_each [] = pure ops clock tt
    delete_each (k ∷ ks) = delete ops clock (k ∷ []) >>= λ _. delete_each ks

    -- `self.lsm.flush()`
    abbrev pub flush : Method ops clock (Unit {0})
    flush e = lifted ops clock e (ops.flush e.lsm)

    unfoldable pub flushdb : clock.Time → Method ops clock (Unit {0})
    flushdb now = keys now (codes "*") >>= λ names. delete_each names >>= λ _. flush
