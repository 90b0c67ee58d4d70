-- ===== src/Kv/Counts.antt =====
-- Strings as counters.
use zenith_db.Prelude.{◌≡◌, ◌≢◌, refl, sym, ap, ◌∙◌, Bool, false, Option, none, some, none-ne-some}
use zenith_db.Bytes.{Bytes}
use zenith_db.Lsm.MemTable.{tombstone}
use zenith_db.Python.Int.{ℤ, ◌+ℤ◌}
use zenith_db.Python.Text.{strip}
use zenith_db.Python.Decimal.{str_int, parse_int, parse_int-str_int}
use zenith_db.Kv.{returned, StoreOps, StoreLaws, Clock, >>=-returned, >>=-eq, returned_injective}
use zenith_db.Kv.Keys.{Engine, pure, is_expired}
use zenith_db.Kv.Strings.{get, set, existing, incrby, store_number, add_to, add_number}
use zenith_db.Kv.Reads.{HasString, is_expired-lasting, get-HasString, write_string-returned}

tombstone_unread : parse_int tombstone ≡ none
unfolding parse_int strip
tombstone_unread = refl

str_int-ne-tombstone : (n : ℤ) → str_int n ≢ tombstone
str_int-ne-tombstone n h =
    none-ne-some {a = n} (sym tombstone_unread ∙ ap parse_int (sym h) ∙ parse_int-str_int n)

module _ (ops : StoreOps) (clock : Clock) (laws : StoreLaws ops) where
  set-HasString :
      (now : clock.Time) (key u v : Bytes) (e e' : Engine ops clock) (b : Bool)
      → v ≢ tombstone
      → laws.IsStore e.lsm
      → HasString ops clock key u e
      → set ops clock now key v none false false e ≡ returned b e'
      → laws.IsStore e'.lsm × HasString ops clock key v e'
  unfolding set existing
  set-HasString now key u v e e' b ne g has h =
      write_string-returned ops clock laws now key v e e' b ne g (
        sym (
          >>=-eq (existing ops clock now key) _ e e (
            >>=-eq (is_expired ops clock now key) _ e e
              (is_expired-lasting ops clock now key e has.lasting)
            ∙ get-HasString ops clock now key u e has))
        ∙ h)

  add_to-number :
      (now : clock.Time) (key val : Bytes) (amount m : ℤ) (e : Engine ops clock)
      → parse_int val ≡ some m
      → add_to ops clock now key amount (some val) e
        ≡ store_number ops clock now key (m +ℤ amount) e
  unfolding incrby
  add_to-number now key val amount m e h =
      ap (λ (o : Option ℤ). add_number ops clock now key amount o e) h

  -- In a well-formed store, where a key holds a number in decimals, without expiry, an incrby that
  -- returns leaves the store well formed and gives the sum, and the key then reads as that sum in
  -- decimals at any time.
  pub get-incrby :
      (now later : clock.Time) (key : Bytes) (m amount n : ℤ) (e e' : Engine ops clock)
      → laws.IsStore e.lsm
      → HasString ops clock key (str_int m) e
      → incrby ops clock now key amount e ≡ returned n e'
      → laws.IsStore e'.lsm
        × (n ≡ m +ℤ amount)
        × (get ops clock later key e' ≡ returned (some (str_int n)) e')
  unfolding incrby
  get-incrby now later key m amount n e e' g has h =
      let read =
        >>=-eq (get ops clock now key) (add_to ops clock now key amount) e e
          (get-HasString ops clock now key (str_int m) e has) in
      let sum = add_to-number now key (str_int m) amount m e (parse_int-str_int m) in
      let (b, s, h1, k1) =
        >>=-returned (set ops clock now key (str_int (m +ℤ amount)) none false false)
          (λ _. pure ops clock (m +ℤ amount)) e (sym sum ∙ sym read ∙ h) in
      let (number, same) = returned_injective k1 in
      let (g', has') =
        set-HasString now key (str_int m) (str_int (m +ℤ amount)) e s b
          (str_int-ne-tombstone (m +ℤ amount)) g has h1 in
      rw (← same, ← number)
        (g', refl, get-HasString ops clock later key (str_int (m +ℤ amount)) s has')
