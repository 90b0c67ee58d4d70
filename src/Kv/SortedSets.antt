-- ===== src/Kv/SortedSets.antt =====
-- Sorted sets: an entry with the score for each member. Scores are floats, a parameter. The members
-- given to zadd have passed float().
use zenith_db.Prelude.{
  ℕ, suc, ◌+◌, Bool, Option, none, some, List, [], ◌∷◌, ◌++◌, if◌then◌else◌, length, take, drop,
  is_none,
}
use zenith_db.Bytes.{Bytes, bytes_eq, bytes_lt, codes}
use zenith_db.Dict.{Dict}
use zenith_db.Python.Int.{ℤ, pos, neg, ◌+ℤ◌, ◌-ℤ◌, ltb_ℤ, to_ℕ}
use zenith_db.Txn.{type_key}
use zenith_db.Kv.{raises, value_error, ◌>>=◌, StoreOps, Clock}
use zenith_db.Kv.Keys.{Method, pure, read, put, scan_all, is_expired, zset_prefix, with_prefix}
use zenith_db.Kv.Hashes.{named_from, remove_found}
use zenith_db.Kv.Lists.{clamp_start, clamp_stop}

-- `float(b.decode("utf-8"))`, where `none` is the ValueError, `str(x)`, `x == y`, `x < y`, `x + y`
-- and 0.0.
pub record Floats : Type 1 where
  pub Float : Type 0
  pub parse : Bytes → Option Float
  pub print : Float → Bytes
  pub equals : Float → Float → Bool
  pub less : Float → Float → Bool
  pub plus : Float → Float → Float
  pub nought : Float

abbrev pub score_key : Bytes → Bytes → Bytes
score_key key m = zset_prefix key ++ m

-- `members.index(member)`
unfoldable pub index_of : Bytes → List Bytes → Option ℕ
index_of member [] = none
index_of member (m ∷ members) =
    let rest = index_of member members in
    if bytes_eq m member then some 0 else elim rest [ none ↦ none | some i ↦ some (suc i) ]

module _ (floats : Floats) where
  -- `x < y` of the tuples (x[1], x[0]) and (y[1], y[0]).
  abbrev pub before : Bytes × floats.Float → Bytes × floats.Float → Bool
  before x y = if floats.equals x.1 y.1 then bytes_lt x.0 y.0 else floats.less x.1 y.1

  -- `items.sort(key=lambda x: (x[1], x[0]))`, which is stable.
  unfoldable pub insert_item : Bytes × floats.Float → Dict floats.Float → Dict floats.Float
  insert_item x [] = x ∷ []
  insert_item x (y ∷ items) =
      let rest = insert_item x items in if before y x then y ∷ rest else x ∷ (y ∷ items)

  unfoldable pub sort_items : Dict floats.Float → Dict floats.Float
  sort_items [] = []
  sort_items (x ∷ items) = insert_item x (sort_items items)

  -- The scores of the entries, unless one is no float.
  unfoldable pub scored : Dict Bytes → Option (Dict floats.Float)
  scored [] = some []
  scored ((m, v) ∷ d) = elim (floats.parse v) [
    | none ↦ none
    | some score ↦ elim (scored d) [ none ↦ none | some items ↦ some ((m, score) ∷ items) ]
  ]

  -- `items[start : stop + 1] if start <= stop else []`, of a start that is not negative.
  abbrev pub sliced : ℤ → ℤ → Dict floats.Float → Dict floats.Float
  sliced start stop items =
      if ltb_ℤ stop start
      then []
      else take (to_ℕ (stop +ℤ pos 1 -ℤ start)) (drop (to_ℕ start) items)

  -- `zscore(…) or 0.0`
  abbrev pub or_nought : Option floats.Float → floats.Float
  or_nought none = floats.nought
  or_nought (some score) = if floats.equals score floats.nought then floats.nought else score

  module _ (ops : StoreOps) (clock : Clock) where
    unfoldable pub zadd_all : Bytes → Dict floats.Float → Method ops clock ℕ
    zadd_all key [] = pure ops clock 0
    zadd_all key ((member, score) ∷ mapping) = read ops clock (score_key key member) >>= λ found.
        put ops clock (score_key key member) (floats.print score) >>= λ _.
        zadd_all key mapping >>= λ added. pure ops clock ((if is_none found then 1 else 0) + added)

    unfoldable pub zadd : clock.Time → Bytes → Dict floats.Float → Method ops clock ℕ
    zadd now key mapping = is_expired ops clock now key >>= λ _. zadd_all key mapping >>= λ added.
        put ops clock (type_key key) (codes "zset") >>= λ _. pure ops clock added

    unfoldable pub zrem : Bytes → List Bytes → Method ops clock ℕ
    zrem key [] = pure ops clock 0
    zrem key (m ∷ members) = read ops clock (score_key key m) >>= λ found.
        remove_found ops clock (score_key key m) found >>= λ one.
        zrem key members >>= λ count. pure ops clock (one + count)

    -- The float of an entry; the ValueError is `raises`.
    unfoldable pub float_of : Option Bytes → Method ops clock (Option floats.Float)
    float_of none e = pure ops clock none e
    float_of (some val) e = elim (floats.parse val) [
      | none ↦ raises value_error e
      | some score ↦ pure ops clock (some score) e
    ]

    unfoldable pub zscore : clock.Time → Bytes → Bytes → Method ops clock (Option floats.Float)
    zscore now key member = is_expired ops clock now key >>= λ expired.
        read ops clock (score_key key member) >>= λ val. float_of (if expired then none else val)

    unfoldable pub zincrby :
        clock.Time → Bytes → floats.Float → Bytes → Method ops clock floats.Float
    zincrby now key amount member = zscore now key member >>= λ curr.
        zadd now key ((member, floats.plus (or_nought curr) amount) ∷ []) >>= λ _.
        pure ops clock (floats.plus (or_nought curr) amount)

    -- What zrange does with the entries that it has read.
    unfoldable pub ranked :
        ℤ → ℤ → Option (Dict floats.Float) → Method ops clock (Dict floats.Float)
    ranked start stop none e = raises value_error e
    ranked start stop (some items) e =
        let size = pos (length items) in
        let first = clamp_start size start in
        let last = clamp_stop size stop in pure ops clock (sliced first last (sort_items items)) e

    -- `zrange(…, withscores=True)`
    unfoldable pub zrange_scores : clock.Time → Bytes → ℤ → ℤ → Method ops clock (Dict floats.Float)
    zrange_scores now key start stop = is_expired ops clock now key >>= λ expired.
        scan_all ops clock (zset_prefix key) >>= λ entries.
        (if expired
          then pure ops clock []
          else ranked start stop
              (scored (named_from (zset_prefix key) (with_prefix (zset_prefix key) entries))))

    abbrev pub names_in : Dict floats.Float → List Bytes
    names_in [] = []
    names_in ((m, score) ∷ items) = m ∷ names_in items

    unfoldable pub zrange : clock.Time → Bytes → ℤ → ℤ → Method ops clock (List Bytes)
    zrange now key start stop =
        zrange_scores now key start stop >>= λ items. pure ops clock (names_in items)

    unfoldable pub zrank : clock.Time → Bytes → Bytes → Method ops clock (Option ℕ)
    zrank now key member =
        zrange now key (pos 0) (neg (pos 1)) >>= λ members. pure ops clock (index_of member members)

    unfoldable pub zcard : clock.Time → Bytes → Method ops clock ℕ
    zcard now key =
        zrange now key (pos 0) (neg (pos 1)) >>= λ members. pure ops clock (length members)
