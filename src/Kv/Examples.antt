-- ===== src/Kv/Examples.antt =====
-- The engine's theorems at small stores, one of them with a string that has expired, and at the tree.
mod Lists
mod Sets
mod SortedSets
use zenith_db.Prelude.{
  ℕ, ◌+◌, ◌≡◌, refl, Bool, true, false, Option, none, some, [], ◌∷◌, leb, length, is_none,
  if◌then◌else◌,
}
use zenith_db.Bytes.{Bytes, bytes_eq, codes}
use zenith_db.Lsm.Tables.Listed.{listed, listed_laws}
use zenith_db.Dict.{Dict}
use zenith_db.Lsm.Tree.View.{IsWell}
use zenith_db.Lsm.Tree.{LsmTree, Times}
use zenith_db.Python.Utf8.{is_utf8}
use zenith_db.Kv.{Result, returned, raises, StoreOps, StoreLaws, ScanLaws, Clock, ClockLaws}
use zenith_db.Kv.Keeps.{Quiet}
use zenith_db.Kv.Keys.{
  Engine, is_expired, is_due, purge_key, remove_parts, persist, key_type, expire,
}
use zenith_db.Kv.Strings.{get, set, existing, write_string, incrby}
use zenith_db.Kv.Reads.{HasString, get-set_string}
use zenith_db.Kv.Hashes.{field_key, hset, hget}
use zenith_db.Kv.Fields.{IsFresh, hget-hset}
use zenith_db.Kv.Expiry.{get-set_expiring}
use zenith_db.Kv.Counts.{get-incrby}
use zenith_db.Python.Int.{ℤ, pos, ◌+ℤ◌, ◌-ℤ◌}
use zenith_db.Python.Text.{strip}
use zenith_db.Python.Decimal.{str_int, decimal, parse_int}
use zenith_db.Kv.Backend.{tree_store, tree_store-StoreLaws}

-- A store as the function that it answers, without scans.
abbrev pub store : StoreOps
store = record {
  Store = Bytes → Option Bytes;
  get = λ s k. s k;
  put = λ k v s. returned tt (λ j. if bytes_eq k j then some v else s j);
  delete = λ k s. returned tt (λ j. if bytes_eq k j then none else s j);
  scan = λ s start. [];
  flush = λ s. returned tt s;
}

pub same_answers :
    (f g : Bytes → Option Bytes)
    → ◌≡◌ {A = Result (Bytes → Option Bytes) (Unit {0})} (returned tt f) (returned tt g)
    → (j : Bytes) → g j ≡ f j
same_answers f g h j = let e : f ≡ g = cc in rw e refl

unfoldable pub store-StoreLaws : StoreLaws store
store-StoreLaws = record {
  IsStore = λ s. Unit {0};
  puts = λ k v s s' w p q h. (tt, same_answers (λ j. if bytes_eq k j then some v else s j) s' h);
  deletes = λ k s s' w p h. (tt, same_answers (λ j. if bytes_eq k j then none else s j) s' h);
  flushes = λ s s' w h. (tt, same_answers s s' h);
}

abbrev pub seconds : Clock
seconds = record {
  Time = ℕ;
  parse = λ b. some 1;
  print = λ t. codes "1";
  reached = λ now t. leb t now;
  after = λ t n. t + n;
  left = λ e t. pos e -ℤ pos t;
}

abbrev entries : Bytes → Option Bytes
entries k =
    if bytes_eq k (codes "__TYPE__:k")
    then some (codes "string")
    else if bytes_eq k (codes "__EXP__:k")
    then some (codes "1")
    else if bytes_eq k (codes "__V__:k")
    then some (codes "old")
    else none

abbrev engine : Engine store seconds
engine = record { lsm = entries; ttl_heap = [] }

abbrev left_by : Result (Engine store seconds) Bool → Engine store seconds
left_by (returned _ e) = e
left_by (raises _ e) = e

engine_after : Engine store seconds
engine_after = left_by (set store seconds 5 (codes "k") (codes "v") none true false engine)

set_returns :
    set store seconds 5 (codes "k") (codes "v") none true false engine ≡ returned true engine_after
unfolding engine_after set existing get write_string persist is_expired is_due purge_key is_utf8
    remove_parts bytes_eq
set_returns = refl

engine-Quiet : Quiet store seconds store-StoreLaws (codes "k") engine
unfolding purge_key is_utf8 remove_parts bytes_eq
engine-Quiet s h = cc

get-set_string_example :
    Unit {0}
    × (get store seconds 9 (codes "k") engine_after ≡ returned (some (codes "v")) engine_after)
    × (key_type store seconds 9 (codes "k") engine_after ≡ returned (codes "string") engine_after)
unfolding store-StoreLaws
get-set_string_example =
    get-set_string store seconds store-StoreLaws 5 9 (codes "k") (codes "v") true false engine
      engine_after (cc) tt engine-Quiet set_returns

abbrev crc : Bytes → ℕ
crc s = length s

abbrev times : ℕ → Times
times n = record { ts = n; now = n }

tree_store-StoreLaws_example :
    (meets : StoreLaws (tree_store listed crc times)) × ScanLaws (tree_store listed crc times) meets
    × ((s : LsmTree (Dict Bytes)) (writes : ℕ) → meets.IsStore (s, writes) ≡ IsWell listed s)
tree_store-StoreLaws_example = tree_store-StoreLaws listed listed_laws crc times

hash : Engine store seconds
hash = record {
  lsm = λ k. if bytes_eq k (codes "__H__:h:f") then some (codes "old") else none;
  ttl_heap = [];
}

abbrev hash_left : Result (Engine store seconds) ℕ → Engine store seconds
hash_left (returned _ e) = e
hash_left (raises _ e) = e

hash_after : Engine store seconds
hash_after = hash_left (hset store seconds 5 (codes "h") (codes "g") (codes "new") hash)

hash-IsFresh : (now : ℕ) → IsFresh store seconds now (codes "h") hash
unfolding hash is_due bytes_eq
hash-IsFresh now = refl

hset_returns :
    hset store seconds 5 (codes "h") (codes "g") (codes "new") hash ≡ returned 1 hash_after
unfolding hash hash_after hset is_expired is_due bytes_eq
hset_returns = refl

hget-hset_example :
    Unit {0}
    × (◌≡◌ {A = ℕ} 1
        (if is_none (store.get hash.lsm (field_key (codes "h") (codes "g"))) then 1 else 0))
    × (key_type store seconds 9 (codes "h") hash_after ≡ returned (codes "hash") hash_after)
    × ((j : Bytes)
        → hget store seconds 9 (codes "h") j hash_after
          ≡ returned
              (if bytes_eq (codes "g") j
                then some (codes "new")
                else store.get hash.lsm (field_key (codes "h") j))
              hash_after)
unfolding store-StoreLaws
hget-hset_example =
    hget-hset store seconds store-StoreLaws 5 9 (codes "h") (codes "g") (codes "new") 1 hash
      hash_after (cc) tt (hash-IsFresh 5) (hash-IsFresh 9) hset_returns

abbrev pub tick : Bytes → Option ℕ
tick (t ∷ []) = some t
tick _ = none

abbrev ticks : Clock
ticks = record {
  Time = ℕ;
  parse = tick;
  print = λ t. t ∷ [];
  reached = λ now t. leb t now;
  after = λ t n. t + n;
  left = λ e t. pos e -ℤ pos t;
}

ticks-ClockLaws : ClockLaws ticks
ticks-ClockLaws = record { parses = λ t. refl; prints = λ t h. cc }

abbrev fresh_engine : Engine store ticks
fresh_engine = record { lsm = λ k. none; ttl_heap = [] }

abbrev ticking : Result (Engine store ticks) Bool → Engine store ticks
ticking (returned _ e) = e
ticking (raises _ e) = e

abbrev read_by : Result (Engine store ticks) (Option Bytes) → Engine store ticks
read_by (returned _ e) = e
read_by (raises _ e) = e

expiring : Engine store ticks
expiring =
    ticking (set store ticks 5 (codes "k") (codes "v") (some (pos 3)) true false fresh_engine)

expired : Engine store ticks
expired = read_by (get store ticks 8 (codes "k") expiring)

expiring_returns :
    set store ticks 5 (codes "k") (codes "v") (some (pos 3)) true false fresh_engine
    ≡ returned true expiring
unfolding expiring set existing get write_string expire is_expired is_due bytes_eq
expiring_returns = refl

expired_returns : get store ticks 8 (codes "k") expiring ≡ returned none expired
unfolding expired expiring set existing get write_string expire is_expired is_due purge_key is_utf8
    remove_parts bytes_eq
expired_returns = refl

fresh-Quiet : Quiet store ticks store-StoreLaws (codes "k") fresh_engine
unfolding purge_key is_utf8
fresh-Quiet s h = cc

expiring-Quiet : Quiet store ticks store-StoreLaws (codes "k") expiring
unfolding expiring set existing get write_string expire is_expired is_due purge_key is_utf8
    remove_parts bytes_eq
expiring-Quiet s h = cc

get-set_expiring_example :
    ◌≡◌ {A = Option Bytes} none
      (if ticks.reached 8 (ticks.after 5 3) then none else some (codes "v"))
unfolding store-StoreLaws
get-set_expiring_example =
    get-set_expiring store ticks store-StoreLaws ticks-ClockLaws 5 8 (codes "k") (codes "v") 2 true
      false fresh_engine expiring expired none (cc) tt fresh-Quiet expiring-Quiet expiring_returns
      expired_returns

counter : Engine store seconds
counter = record {
  lsm = λ k.
      if bytes_eq k (codes "__V__:n")
      then some (codes "41")
      else if bytes_eq k (codes "__TYPE__:n")
      then some (codes "string")
      else none;
  ttl_heap = [];
}

abbrev counted : Result (Engine store seconds) ℤ → Engine store seconds
counted (returned _ e) = e
counted (raises _ e) = e

counter_after : Engine store seconds
counter_after = counted (incrby store seconds 5 (codes "n") (pos 1) counter)

incrby_returns :
    incrby store seconds 5 (codes "n") (pos 1) counter ≡ returned (pos 42) counter_after
unfolding counter counter_after incrby set existing get write_string persist is_expired is_due
    parse_int strip str_int decimal bytes_eq ◌+ℤ◌
incrby_returns = refl

counter-HasString : HasString store seconds (codes "n") (str_int (pos 41)) counter
unfolding counter str_int decimal bytes_eq
counter-HasString = record { value = refl; tag = refl; lasting = refl }

get-incrby_example :
    Unit {0}
    × (◌≡◌ {A = ℤ} (pos 42) (pos 41 +ℤ pos 1))
    × (get store seconds 9 (codes "n") counter_after
        ≡ returned (some (str_int (pos 42))) counter_after)
unfolding store-StoreLaws
get-incrby_example =
    get-incrby store seconds store-StoreLaws 5 9 (codes "n") (pos 41) (pos 1) (pos 42) counter
      counter_after tt counter-HasString incrby_returns
