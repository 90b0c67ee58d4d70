-- ===== src/Kv/Edits.antt =====
-- What additions to a set and removals from it leave.
use mathlib.Core.List.{cons-ne-nil}
use zenith_db.Prelude.{
  ℕ, ◌+◌, ◌≡◌, refl, ap, ◌∙◌, Bool, true, false, not, ◌&&◌, ◌||◌, Option, none, some, List, [], ◌∷◌,
  is_none, if◌then◌else◌,
}
use zenith_db.Bytes.{Bytes, bytes_eq, codes}
use zenith_db.Bytes.Order.{bytes_eq-append}
use zenith_db.Txn.{exp_key}
use zenith_db.Kv.{returned, StoreOps, StoreLaws, Clock}
use zenith_db.Kv.Keys.{Engine, Method, put, remove, set_prefix}
use zenith_db.Kv.Keeps.{put-returned, remove-returned}
use zenith_db.Kv.Sets.{member_key, sadd, srem}
use zenith_db.Kv.Members.{has_member}

-- Members are added or removed.
pub data Edit : Type 0 where
  adding removing : List Bytes → Edit

-- Whether a key is a member after an addition or a removal, and how many were new or were there.
abbrev pub with_all : List Bytes → (Bytes → Bool) → Bytes → Bool
with_all [] f = f
with_all (m ∷ ms) f = with_all ms (λ j. bytes_eq m j || f j)

abbrev pub count_new : List Bytes → (Bytes → Bool) → ℕ
count_new [] f = 0
count_new (m ∷ ms) f = (if f m then 0 else 1) + count_new ms (λ j. bytes_eq m j || f j)

abbrev pub without_all : List Bytes → (Bytes → Bool) → Bytes → Bool
without_all [] f = f
without_all (m ∷ ms) f = without_all ms (λ j. not (bytes_eq m j) && f j)

abbrev pub count_gone : List Bytes → (Bytes → Bool) → ℕ
count_gone [] f = 0
count_gone (m ∷ ms) f = (if f m then 1 else 0) + count_gone ms (λ j. not (bytes_eq m j) && f j)

abbrev pub edited : Edit → (Bytes → Bool) → Bytes → Bool
edited (adding ms) = with_all ms
edited (removing ms) = without_all ms

abbrev pub edit_count : Edit → (Bytes → Bool) → ℕ
edit_count (adding ms) = count_new ms
edit_count (removing ms) = count_gone ms

module _ (ops : StoreOps) (clock : Clock) where
  abbrev pub edit : Bytes → clock.Time → Edit → Method ops clock ℕ
  edit key now (adding ms) = sadd ops clock now key ms
  edit key now (removing ms) = srem ops clock key ms

module _ (ops : StoreOps) (clock : Clock) (laws : StoreLaws ops) where
  -- The key has the members of which `f` says so, and no expiry.
  pub record HasSet (key : Bytes) (f : Bytes → Bool) (e : Engine ops clock) : Type 0 where
    pub good : laws.IsStore e.lsm
    pub members : (m : Bytes) → has_member ops clock key m e ≡ f m
    pub lasting : ops.get e.lsm (exp_key key) ≡ none

  pub put-HasSet :
      (key m : Bytes) (f : Bytes → Bool) (e e' : Engine ops clock)
      → HasSet key f e
      → put ops clock (member_key key m) (codes "1") e ≡ returned tt e'
      → HasSet key (λ j. bytes_eq m j || f j) e'
  unfolding bytes_eq
  put-HasSet key m f e e' s h =
      let (g, r) =
        put-returned ops clock laws (member_key key m) (codes "1") e e' (cons-ne-nil _ _) (λ q. cc)
          s.good h in
      record {
        good = g;
        members = λ j.
            ap (λ o. not (is_none o))
              (r (member_key key j)
                ∙ ap
                    (λ (b : Bool). if b then some (codes "1") else ops.get e.lsm (member_key key j))
                    (bytes_eq-append (set_prefix key) m j))
            ∙ added (bytes_eq m j) (ops.get e.lsm (member_key key j)) (f j) (s.members j);
        lasting = r (exp_key key) ∙ s.lasting;
      }
    where
      added :
          (b : Bool) (o : Option Bytes) (t : Bool)
          → not (is_none o) ≡ t
          → not (is_none (if b then some (codes "1") else o)) ≡ b || t
      added true o t h = refl
      added false o t h = h

  pub remove-HasSet :
      (key m : Bytes) (f : Bytes → Bool) (e e' : Engine ops clock)
      → HasSet key f e
      → remove ops clock (member_key key m) e ≡ returned tt e'
      → HasSet key (λ j. not (bytes_eq m j) && f j) e'
  unfolding bytes_eq
  remove-HasSet key m f e e' s h =
      let (g, r) =
        remove-returned ops clock laws (member_key key m) e e' (cons-ne-nil _ _) s.good h in
      record {
        good = g;
        members = λ j.
            ap (λ o. not (is_none o))
              (r (member_key key j)
                ∙ ap (λ (b : Bool). if b then none else ops.get e.lsm (member_key key j))
                    (bytes_eq-append (set_prefix key) m j))
            ∙ left (bytes_eq m j) (ops.get e.lsm (member_key key j)) (f j) (s.members j);
        lasting = r (exp_key key) ∙ s.lasting;
      }
    where
      left :
          (b : Bool) (o : Option Bytes) (t : Bool)
          → not (is_none o) ≡ t
          → not (is_none (if b then none else o)) ≡ not b && t
      left true o t h = refl
      left false o t h = h

  -- Where the outcome does not depend on the edit.
  pub HasSet-same :
      (key : Bytes) (f g : Bytes → Bool) (e : Engine ops clock)
      → ((j : Bytes) → f j ≡ g j)
      → HasSet key f e
      → HasSet key g e
  HasSet-same key f g e h s = record {
    good = s.good;
    members = λ j. s.members j ∙ h j;
    lasting = s.lasting;
  }
