-- ===== src/Kv/Expiry.antt =====
-- What a string with an expiry reads as.
use mathlib.Core.List.{cons-ne-nil}
use mathlib.Core.Path.{subst}
use zenith_db.Prelude.{
  ℕ, suc, ◌≡◌, ◌≢◌, refl, sym, ap, ◌∙◌, Bool, true, false, not, ◌&&◌, inl, inr, Option, none, some,
  arith, Bool-cases, if◌then◌else◌, is_none,
}
use zenith_db.Bytes.{Bytes, bytes_eq, codes}
use zenith_db.Bytes.Order.{bytes_eq_refl}
use zenith_db.Lsm.MemTable.{tombstone}
use zenith_db.Python.Int.{pos, ltb_ℤ}
use zenith_db.Txn.{value_key, type_key, exp_key}
use zenith_db.Kv.{
  returned, ◌>>◌, StoreOps, StoreLaws, Clock, ClockLaws, >>=-returned, >>=-eq, returned_injective,
}
use zenith_db.Kv.Keys.{Engine, pure, read, put, expire, persist, is_expired, is_due}
use zenith_db.Kv.Strings.{get, set, existing, write_string}
use zenith_db.Kv.Keeps.{put-returned, Quiet, is_expired-Quiet, Fewer-existing}
use zenith_db.Kv.Reads.{passed, string-ne-tombstone}
use zenith_db.Kv.Fields.{is_expired-IsFresh}

module _ (ops : StoreOps) (clock : Clock) where
  -- The key holds the string `v` until the time `t`.
  pub record HasUntil (key v : Bytes) (t : clock.Time) (e : Engine ops clock) : Type 0 where
    pub value : ops.get e.lsm (value_key key) ≡ some v
    pub until : ops.get e.lsm (exp_key key) ≡ some (clock.print t)

  hidden :
      (b : Bool) (key : Bytes) (s s' : Engine ops clock) (o : Option Bytes)
      → b ≡ true
      → (if b then pure ops clock none else read ops clock (value_key key)) s ≡ returned o s'
      → o ≡ none
  hidden true key s s' o d h = let (same, _) = returned_injective h in sym same
  hidden false key s s' o d h = cc

module _ (ops : StoreOps) (clock : Clock) (laws : StoreLaws ops) where
  get-HasUntil :
      ClockLaws clock
      → (later t : clock.Time) (key v : Bytes) (e e' : Engine ops clock) (o : Option Bytes)
      → HasUntil ops clock key v t e
      → Quiet ops clock laws key e
      → get ops clock later key e ≡ returned o e'
      → o ≡ (if clock.reached later t then none else some v)
  unfolding get is_expired is_due
  get-HasUntil times later t key v e e' o h q g =
      let due : is_due ops clock later (ops.get e.lsm (exp_key key)) ≡ clock.reached later t =
        ap (is_due ops clock later) h.until
        ∙ ap (λ (x : Option clock.Time). elim x [ none ↦ false | some u ↦ clock.reached later u ])
            (times.parses t) in
      elim (Bool-cases (clock.reached later t)) [
        | inl over ↦
            let (b, s, h1, h2) = >>=-returned (is_expired ops clock later key) _ e g in
            let (shown, _) = is_expired-Quiet ops clock laws later key e s b q h1 in
            rw over (hidden ops clock b key s e' o (shown ∙ due ∙ over) h2)
        | inr not_yet ↦
            let fresh =
              >>=-eq (is_expired ops clock later key) _ e e
                (is_expired-IsFresh ops clock later key e (due ∙ not_yet)) in
            let (same, _) = returned_injective (sym fresh ∙ g) in rw not_yet (sym same ∙ h.value)
      ]

module _ (ops : StoreOps) (clock : Clock) (laws : StoreLaws ops) (times : ClockLaws clock) where
  write_string-HasUntil :
      (now : clock.Time) (key v : Bytes) (n : ℕ) (e e' : Engine ops clock) (b : Bool)
      → v ≢ tombstone
      → laws.IsStore e.lsm
      → write_string ops clock now key v (some (pos (suc n))) e ≡ returned b e'
      → HasUntil ops clock key v (clock.after now (suc n)) e'
  unfolding write_string expire bytes_eq
  write_string-HasUntil now key v n e e' b ne g h =
      let t = clock.after now (suc n) in
      let (_, s1, h1, k1) = >>=-returned (put ops clock (value_key key) v) _ e h in
      let (_, s2, h2, k2) = >>=-returned (put ops clock (type_key key) (codes "string")) _ s1 k1 in
      let positive : ltb_ℤ (pos 0) (pos (suc n)) ≡ true = ground arith in
      let expiring =
        subst
          (λ (c : Bool).
            ((if c then expire ops clock now key (pos (suc n)) else persist ops clock key)
                >> pure ops clock true)
              s2
            ≡ returned b e')
          positive k2 in
      let (_, s4, h4, k4) = >>=-returned (expire ops clock now key (pos (suc n))) _ s2 expiring in
      let (_, s3, h3, k3) = >>=-returned (put ops clock (exp_key key) (clock.print t)) _ s2 h4 in
      let (g1, r1) = put-returned ops clock laws (value_key key) v e s1 (cons-ne-nil _ _) ne g h1 in
      let (g2, r2) =
        put-returned ops clock laws (type_key key) (codes "string") s1 s2 (cons-ne-nil _ _)
          string-ne-tombstone g1 h2 in
      let (g3, r3) =
        put-returned ops clock laws (exp_key key) (clock.print t) s2 s3 (cons-ne-nil _ _)
          (times.prints t) g2 h3 in
      let (_, same3) = returned_injective k3 in
      let (_, same4) = returned_injective k4 in
      let lsm : s3.lsm ≡ e'.lsm = ap (λ (x : Engine ops clock). x.lsm) (same3 ∙ same4) in
      record {
        value =
            ap (λ (s : ops.Store). ops.get s (value_key key)) (sym lsm)
            ∙ r3 (value_key key)
            ∙ r2 (value_key key)
            ∙ r1 (value_key key)
            ∙ rw (bytes_eq_refl (value_key key)) refl;
        until =
            ap (λ (s : ops.Store). ops.get s (exp_key key)) (sym lsm)
            ∙ r3 (exp_key key)
            ∙ rw (bytes_eq_refl (exp_key key)) refl;
      }

  -- In a well-formed store, after a set with a positive count of seconds that returns True, of a
  -- value that is not the marker of a deletion, a get at any time that returns gives the value
  -- before the deadline, and None from the deadline on, where the purge of the key raises no
  -- ValueError before the set or before the get.
  pub get-set_expiring :
      (now later : clock.Time) (key v : Bytes) (n : ℕ) (nx xx : Bool) (e e' e'' : Engine ops clock)
      (o : Option Bytes)
      → v ≢ tombstone
      → laws.IsStore e.lsm
      → Quiet ops clock laws key e
      → Quiet ops clock laws key e'
      → set ops clock now key v (some (pos (suc n))) nx xx e ≡ returned true e'
      → get ops clock later key e' ≡ returned o e''
      → o ≡ (if clock.reached later (clock.after now (suc n)) then none else some v)
  unfolding set
  get-set_expiring now later key v n nx xx e e' e'' o ne g q q' h r =
      let (found, s, h1, k1) = >>=-returned (existing ops clock now key) _ e h in
      let (g1, _) = Fewer-existing ops clock laws now key e s found g q h1 in
      let k2 =
        passed ops clock laws (nx && not (is_none found)) (xx && is_none found)
          (write_string ops clock now key v (some (pos (suc n)))) s e' k1 in
      get-HasUntil ops clock laws times later (clock.after now (suc n)) key v e' e'' o
        (write_string-HasUntil now key v n s e' true ne g1 k2) q' r
