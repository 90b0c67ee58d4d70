-- ===== src/Kv/Membership.antt =====
-- No sequence of additions and removals tells a set of the engine from a mathematical one.
use mathlib.Core.Path.{subst}
use zenith_db.Prelude.{ℕ, ◌≡◌, sym, ap, ◌∙◌, Bool, List, [], ◌∷◌}
use zenith_db.Bytes.{Bytes}
use zenith_db.Kv.{returned, ◌>>=◌, StoreOps, StoreLaws, Clock, >>=-returned, returned_injective}
use zenith_db.Kv.Keys.{Engine, Method, pure, is_due}
use zenith_db.Kv.Fields.{IsFresh}
use zenith_db.Kv.Sets.{sismember}
use zenith_db.Kv.Members.{sismember-IsFresh}
use zenith_db.Kv.Edits.{Edit, adding, removing, edited, edit_count, edit, HasSet}
use zenith_db.Kv.Additions.{sadd-HasSet}
use zenith_db.Kv.Removals.{srem-HasSet}

-- The membership after a sequence of edits, and what each counts.
abbrev pub all_edited : List Edit → (Bytes → Bool) → Bytes → Bool
all_edited [] f = f
all_edited (c ∷ cs) f = all_edited cs (edited c f)

abbrev pub edit_counts : List Edit → (Bytes → Bool) → List ℕ
edit_counts [] f = []
edit_counts (c ∷ cs) f = edit_count c f ∷ edit_counts cs (edited c f)

module _ (ops : StoreOps) (clock : Clock) where
  abbrev pub edits_of : List (clock.Time × Edit) → List Edit
  edits_of [] = []
  edits_of ((now, c) ∷ cs) = c ∷ edits_of cs

  unfoldable pub run_edits : Bytes → List (clock.Time × Edit) → Method ops clock (List ℕ)
  run_edits key [] = pure ops clock []
  run_edits key ((now, c) ∷ cs) =
      edit ops clock key now c >>= λ n. run_edits key cs >>= λ ns. pure ops clock (n ∷ ns)

module _ (ops : StoreOps) (clock : Clock) (laws : StoreLaws ops) where
  edit-HasSet :
      (key : Bytes) (now : clock.Time) (c : Edit) (f : Bytes → Bool) (n : ℕ)
      (e e' : Engine ops clock)
      → HasSet ops clock laws key f e
      → edit ops clock key now c e ≡ returned n e'
      → (n ≡ edit_count c f) × HasSet ops clock laws key (edited c f) e'
  edit-HasSet key now (adding ms) f n e e' s h = sadd-HasSet ops clock laws now key ms f n e e' s h
  edit-HasSet key now (removing ms) f n e e' s h = srem-HasSet ops clock laws key ms f n e e' s h

  run_edits-HasSet :
      (key : Bytes) (cs : List (clock.Time × Edit)) (f : Bytes → Bool) (ns : List ℕ)
      (e e' : Engine ops clock)
      → HasSet ops clock laws key f e
      → run_edits ops clock key cs e ≡ returned ns e'
      → (ns ≡ edit_counts (edits_of ops clock cs) f)
        × HasSet ops clock laws key (all_edited (edits_of ops clock cs) f) e'
  unfolding run_edits
  run_edits-HasSet key [] f ns e e' s h =
      let (shown, same) = returned_injective h in
      (sym shown, subst (HasSet ops clock laws key f) same s)
  run_edits-HasSet key ((now, c) ∷ cs) f ns e e' s h =
      let (n, s1, h1, k1) = >>=-returned (edit ops clock key now c) _ e h in
      let (more, s2, h2, k2) = >>=-returned (run_edits ops clock key cs) _ s1 k1 in
      let (shown, same) = returned_injective k2 in
      let (first, w1) = edit-HasSet key now c f n e s1 s h1 in
      let (rest, w2) = run_edits-HasSet key cs (edited c f) more s1 s2 w1 h2 in
      (
        sym shown ∙ ap (λ (x : ℕ). x ∷ more) first ∙ ap (λ (l : List ℕ). edit_count c f ∷ l) rest,
        subst (HasSet ops clock laws key (all_edited (edits_of ops clock ((now, c) ∷ cs)) f)) same
            w2,
      )

  lasting-IsFresh :
      (now : clock.Time) (key : Bytes) (f : Bytes → Bool) (e : Engine ops clock)
      → HasSet ops clock laws key f e
      → IsFresh ops clock now key e
  unfolding is_due
  lasting-IsFresh now key f e s = ap (is_due ops clock now) s.lasting

  -- On a key without expiry whose members are those of which `f` says so, any sequence of sadd and
  -- srem calls, at any times, that all return gives the counts of the members that were new or were
  -- there, the key has the members of the set so edited, and sismember says so at any later time.
  pub run_edits_refines :
      (key : Bytes) (cs : List (clock.Time × Edit)) (f : Bytes → Bool) (ns : List ℕ)
      (e e' : Engine ops clock)
      → HasSet ops clock laws key f e
      → run_edits ops clock key cs e ≡ returned ns e'
      → (ns ≡ edit_counts (edits_of ops clock cs) f)
        × HasSet ops clock laws key (all_edited (edits_of ops clock cs) f) e'
        × ((later : clock.Time) (m : Bytes)
            → sismember ops clock later key m e'
              ≡ returned (all_edited (edits_of ops clock cs) f m) e')
  run_edits_refines key cs f ns e e' s h =
      let (shown, s') = run_edits-HasSet key cs f ns e e' s h in
      let g = all_edited (edits_of ops clock cs) f in
      (
        shown,
        s',
        λ later m.
            sismember-IsFresh ops clock later key m e' (lasting-IsFresh later key g e' s')
            ∙ ap (λ (b : Bool). returned b e') (s'.members m),
      )
