-- ===== src/Kv/Calls.antt =====
-- No sequence of calls tells a list of the engine from a double-ended queue.
use mathlib.Core.Path.{subst}
use zenith_db.Prelude.{◌≡◌, sym, ap, ◌∙◌, Option, List, [], ◌∷◌, ◌++◌, length}
use zenith_db.Bytes.{Bytes}
use zenith_db.Python.Int.{ℤ, pos}
use zenith_db.Kv.{returned, ◌>>=◌, StoreOps, StoreLaws, Clock, >>=-returned, returned_injective}
use zenith_db.Kv.Keys.{Engine, Method, pure}
use zenith_db.Kv.Lists.{lpush, rpush, lpop, rpop, lrange, llen}
use zenith_db.Kv.Pushes.{HasList, Storable, pushed}
use zenith_db.Kv.Window.{window}
use zenith_db.Kv.Deque.{
  pop_first, pop_last, rpush-HasList, lpush-HasList, lpop-HasList, rpop-HasList,
}
use zenith_db.Kv.Ranges.{lrange-HasList, llen-HasList}

pub data Call : Type 0 where
  push_left push_right : List Bytes → Call
  pop_left pop_right count : Call
  range : ℤ → ℤ → Call

pub data Reply : Type 0 where
  number : ℤ → Reply
  popped : Option Bytes → Reply
  listed : List Bytes → Reply

-- A call of a double-ended queue: the reply, and what is left.
abbrev pub answer : List Bytes → Call → Reply × List Bytes
answer xs (push_left vs) = (number (pos (length (pushed vs xs))), pushed vs xs)
answer xs (push_right vs) = (number (pos (length (xs ++ vs))), xs ++ vs)
answer xs pop_left = (popped (pop_first xs).0, (pop_first xs).1)
answer xs pop_right = (popped (pop_last xs).0, (pop_last xs).1)
answer xs count = (number (pos (length xs)), xs)
answer xs (range a b) = (listed (window xs a b), xs)

unfoldable pub run_queue : List Bytes → List Call → List Reply × List Bytes
run_queue xs [] = ([], xs)
run_queue xs (c ∷ cs) =
    let (r, xs') = answer xs c in let (rs, left) = run_queue xs' cs in (r ∷ rs, left)

-- The values that a call pushes are texts that a list gives back.
abbrev pub IsStorable : Call → Type 0
IsStorable (push_left vs) = Storable vs
IsStorable (push_right vs) = Storable vs
IsStorable _ = Unit

abbrev pub AllStorable : List Call → Type 0
AllStorable [] = Unit
AllStorable (c ∷ cs) = IsStorable c × AllStorable cs

module _ (ops : StoreOps) (clock : Clock) where
  -- A call of the engine, at some time.
  unfoldable pub call : Bytes → clock.Time → Call → Method ops clock Reply
  call key now (push_left vs) = lpush ops clock now key vs >>= λ n. pure ops clock (number n)
  call key now (push_right vs) = rpush ops clock now key vs >>= λ n. pure ops clock (number n)
  call key now pop_left = lpop ops clock now key >>= λ o. pure ops clock (popped o)
  call key now pop_right = rpop ops clock now key >>= λ o. pure ops clock (popped o)
  call key now count = llen ops clock now key >>= λ n. pure ops clock (number n)
  call key now (range a b) = lrange ops clock now key a b >>= λ vs. pure ops clock (listed vs)

  abbrev pub calls_of : List (clock.Time × Call) → List Call
  calls_of [] = []
  calls_of ((now, c) ∷ cs) = c ∷ calls_of cs

  unfoldable pub run_calls : Bytes → List (clock.Time × Call) → Method ops clock (List Reply)
  run_calls key [] = pure ops clock []
  run_calls key ((now, c) ∷ cs) =
      call key now c >>= λ r. run_calls key cs >>= λ rs. pure ops clock (r ∷ rs)

module _ (ops : StoreOps) (clock : Clock) (laws : StoreLaws ops) where
  replied :
      {A : Type 0} (m : Method ops clock A) (k : A → Reply) (e e' : Engine ops clock) (r : Reply)
      → (m >>= λ a. pure ops clock (k a)) e ≡ returned r e'
      → (a : A) × (m e ≡ returned a e') × (r ≡ k a)
  replied m k e e' r h =
      let (a, s, h1, h2) = >>=-returned m (λ a. pure ops clock (k a)) e h in
      let (shown, same) = returned_injective h2 in
      (a, h1 ∙ ap (λ (x : Engine ops clock). returned a x) same, sym shown)

  call-HasList :
      (key : Bytes) (now : clock.Time) (c : Call) (xs : List Bytes) (r : Reply)
      (e e' : Engine ops clock)
      → IsStorable c
      → HasList ops clock laws key xs e
      → call ops clock key now c e ≡ returned r e'
      → HasList ops clock laws key (answer xs c).1 e' × (r ≡ (answer xs c).0)
  unfolding call
  call-HasList key now (push_left vs) xs r e e' ok l h =
      let (n, h1, shown) = replied (lpush ops clock now key vs) number e e' r h in
      let (l', same) = lpush-HasList ops clock laws now key vs xs n e e' ok l h1 in
      (l', shown ∙ ap number same)
  call-HasList key now (push_right vs) xs r e e' ok l h =
      let (n, h1, shown) = replied (rpush ops clock now key vs) number e e' r h in
      let (l', same) = rpush-HasList ops clock laws now key vs xs n e e' ok l h1 in
      (l', shown ∙ ap number same)
  call-HasList key now pop_left xs r e e' ok l h =
      let (o, h1, shown) = replied (lpop ops clock now key) popped e e' r h in
      let (l', same) = lpop-HasList ops clock laws now key xs o e e' l h1 in
      (l', shown ∙ ap popped same)
  call-HasList key now pop_right xs r e e' ok l h =
      let (o, h1, shown) = replied (rpop ops clock now key) popped e e' r h in
      let (l', same) = rpop-HasList ops clock laws now key xs o e e' l h1 in
      (l', shown ∙ ap popped same)
  call-HasList key now count xs r e e' ok l h =
      let (n, h1, shown) = replied (llen ops clock now key) number e e' r h in
      let (same, stays) =
        returned_injective (sym (llen-HasList ops clock laws now key xs e l) ∙ h1) in
      (subst (HasList ops clock laws key xs) stays l, shown ∙ ap number (sym same))
  call-HasList key now (range a b) xs r e e' ok l h =
      let (vs, h1, shown) = replied (lrange ops clock now key a b) listed e e' r h in
      let (same, stays) =
        returned_injective (sym (lrange-HasList ops clock laws now key a b xs e l) ∙ h1) in
      (subst (HasList ops clock laws key xs) stays l, shown ∙ ap listed (sym same))

  -- In a well-formed store, on a key without expiry that holds a list of texts, any sequence of
  -- lpush, rpush, lpop, rpop, llen and lrange calls, at any times, that all return gives the replies
  -- of a double-ended queue, and the key holds what is left of the queue, where each value that is
  -- there or is pushed is not empty, is UTF-8, and is not the marker of a deletion.
  pub run_calls_refines :
      (key : Bytes) (cs : List (clock.Time × Call)) (xs : List Bytes) (rs : List Reply)
      (e e' : Engine ops clock)
      → AllStorable (calls_of ops clock cs)
      → HasList ops clock laws key xs e
      → run_calls ops clock key cs e ≡ returned rs e'
      → HasList ops clock laws key (run_queue xs (calls_of ops clock cs)).1 e'
        × (rs ≡ (run_queue xs (calls_of ops clock cs)).0)
  unfolding run_calls run_queue
  run_calls_refines key [] xs rs e e' ok l h =
      let (shown, same) = returned_injective h in
      (subst (HasList ops clock laws key xs) same l, sym shown)
  run_calls_refines key ((now, c) ∷ cs) xs rs e e' (ok, oks) l h =
      let (r, s, h1, k1) = >>=-returned (call ops clock key now c) _ e h in
      let (l1, shown) = call-HasList key now c xs r e s ok l h1 in
      let (more, s2, h2, k2) = >>=-returned (run_calls ops clock key cs) _ s k1 in
      let (whole, same) = returned_injective k2 in
      let (l2, rest) = run_calls_refines key cs (answer xs c).1 more s s2 oks l1 h2 in
      (
        subst (HasList ops clock laws key (run_queue (answer xs c).1 (calls_of ops clock cs)).1)
            same l2,
        sym whole
            ∙ ap (λ (x : Reply). x ∷ more) shown
            ∙ ap (λ (l : List Reply). (answer xs c).0 ∷ l) rest,
      )
