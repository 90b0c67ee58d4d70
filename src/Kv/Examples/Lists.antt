-- ===== src/Kv/Examples/Lists.antt =====
-- The theorem on sequences of calls at a list that is new to the store.
use zenith_db.Prelude.{ℕ, ◌≡◌, refl, none, List, [], ◌∷◌}
use zenith_db.Bytes.{bytes_eq, codes}
use zenith_db.Python.Int.{pos, negsuc, ◌+ℤ◌, ◌-ℤ◌}
use zenith_db.Python.Text.{strip, split_on}
use zenith_db.Python.Decimal.{str_int, decimal, parse_int}
use zenith_db.Kv.{Result, returned, raises}
use zenith_db.Python.Utf8.{is_utf8}
use zenith_db.Kv.Keys.{Engine, is_expired, is_due, get_list_meta, list_meta, split_colon}
use zenith_db.Kv.Lists.{
  lpush, rpush, lpop, rpop, lrange, llen, set_list_meta, push_front, push_back, take_element,
  with_meta, read_elements,
}
use zenith_db.Kv.Pushes.{HasList}
use zenith_db.Kv.Deque.{pop_last}
use zenith_db.Kv.Calls.{
  Call, push_left, push_right, pop_left, pop_right, count, range, Reply, call, run_calls, run_queue,
  calls_of, AllStorable, run_calls_refines,
}
use zenith_db.Kv.Examples.{store, store-StoreLaws, seconds}

abbrev fresh : Engine store seconds
fresh = record { lsm = λ k. none; ttl_heap = [] }

abbrev script : List (ℕ × Call)
script =
    (1, push_right (codes "a" ∷ codes "b" ∷ []))
    ∷ (2, push_left (codes "c" ∷ []))
    ∷ (3, range (negsuc 1) (negsuc 0))
    ∷ (4, pop_left)
    ∷ (5, pop_right)
    ∷ (6, count)
    ∷ []

abbrev left_by : Result (Engine store seconds) (List Reply) → Engine store seconds
left_by (returned _ e) = e
left_by (raises _ e) = e

abbrev replies_of : Result (Engine store seconds) (List Reply) → List Reply
replies_of (returned rs _) = rs
replies_of (raises _ _) = []

after_script : Engine store seconds
after_script = left_by (run_calls store seconds (codes "l") script fresh)

replies : List Reply
replies = replies_of (run_calls store seconds (codes "l") script fresh)

script_returns : run_calls store seconds (codes "l") script fresh ≡ returned replies after_script
unfolding after_script replies run_calls call lpush rpush lpop rpop lrange llen set_list_meta
    push_front push_back take_element with_meta read_elements is_utf8 is_expired is_due
    get_list_meta list_meta split_colon split_on parse_int strip str_int decimal bytes_eq ◌+ℤ◌ ◌-ℤ◌
script_returns = refl

fresh-HasList : HasList store seconds store-StoreLaws (codes "l") [] fresh
unfolding store-StoreLaws list_meta ◌+ℤ◌
fresh-HasList = record {
  head = pos 0;
  at = record { good = tt; elements = tt; texts = tt; lasting = refl };
  bounds = refl;
}

script-texts : AllStorable (calls_of store seconds script)
unfolding is_utf8
script-texts = (
  ((λ h. cc, λ h. cc, refl), ((λ h. cc, λ h. cc, refl), tt)),
  (((λ h. cc, λ h. cc, refl), tt), (tt, (tt, (tt, (tt, tt))))),
)

run_calls_refines_example :
    HasList store seconds store-StoreLaws (codes "l") (codes "a" ∷ []) after_script
    × (replies
        ≡ (run_queue [] (
            push_right (codes "a" ∷ codes "b" ∷ [])
            ∷ push_left (codes "c" ∷ [])
            ∷ range (negsuc 1) (negsuc 0)
            ∷ pop_left
            ∷ pop_right
            ∷ count
            ∷ [])).0)
unfolding run_queue pop_last
run_calls_refines_example =
    run_calls_refines store seconds store-StoreLaws (codes "l") script [] replies fresh after_script
      script-texts fresh-HasList script_returns
