-- ===== src/Backend/Store/Refinement.antt =====
-- The store's answers against those of the abstract store: how each write shows in each read.
use mathlib.Core.Path.{ap₂}
use rfmesh_workspace.Base.{
  ℕ, ◌≡◌, refl, sym, ap, ◌∙◌, List, [], ◌∷◌, ◌++◌, Option, none, some, Bool, true, false, ◌==◌,
  ==→eq, Bool-cases, ◌⊎◌, inl, inr, if◌then◌else◌, arith,
}
use rfmesh_workspace.Base.Dict.{
  number_key, pair_key, Dict, lookup, has_key, insert, lookup-insert, lookup-erase,
}
use rfmesh_workspace.Backend.Store.{
  FixEvent, Red, Store, bearing_key, joined, contains, add, make_store, upsert_fix, freq_for,
  get_fix, upsert_bearing, add_red, delete_red, clear_reds,
}
use rfmesh_workspace.Backend.Store.Calls.{
  Call, fix_in, bearing_in, red_in, red_out, reds_out, fix_of, freq_of, seeded_of, Answer,
  was_there, found_fix, found_freq, View, call, call_all, empty_view, is_some, abstract_call,
  abstract_all, Represents,
}

contains-append :
    (n m : ℕ) (ms : List ℕ) → contains n (ms ++ (m ∷ [])) ≡ (if m == n then true else contains n ms)
contains-append n m [] = refl
contains-append n m (l ∷ ms) = rw (contains-append n m ms) (ground arith)

contains-add :
    (n m : ℕ) (ms : List ℕ) → contains n (add m ms) ≡ (if m == n then true else contains n ms)
contains-add n m ms = elim (Bool-cases (contains m ms)) [
  | inl old ↦ rw old (elim (Bool-cases (m == n)) [
    | inl here ↦ rw here (ap (λ k. contains k ms) (sym (==→eq m n here)) ∙ old)
    | inr there ↦ rw there refl
  ])
  | inr new ↦ rw new (contains-append n m ms)
]

module _ {A : Type 0} where
  freq_for-insert :
      (id k : ℕ) (center : Option A) (d : Dict ℕ (Option A))
      → joined (lookup id (insert k center d)) ≡ (if k == id then center else joined (lookup id d))
  freq_for-insert id k center d = ap joined (lookup-insert id k center d) ∙ branch (k == id)
    where
      branch :
          (b : Bool)
          → joined (if b then some center else lookup id d)
            ≡ (if b then center else joined (lookup id d))
      branch true = refl
      branch false = refl

  freq_for-upsert_fix :
      (id : ℕ) (f : FixEvent A) (seeded : Bool) (center : Option A) (s : Store A)
      → freq_for id (upsert_fix f seeded center s)
        ≡ (if f.fix_id == id then center else freq_for id s)
  unfolding freq_for upsert_fix
  freq_for-upsert_fix id f true center s = freq_for-insert id f.fix_id center s.fix_freq
  freq_for-upsert_fix id f false center s = freq_for-insert id f.fix_id center s.fix_freq

  -- A call on a store that represents a view answers as the view does, and the store represents the
  -- view that is left.
  Simulates : Answer A × Store A → Answer A × View A → Type 0
  Simulates got want = (got.0 ≡ want.0) × Represents got.1 want.1

  has_key-is_some : (id : ℕ) (d : Dict ℕ (Red A)) → has_key id d ≡ is_some (lookup id d)
  has_key-is_some id d = go (lookup id d)
    where
      go : (o : Option (Red A)) → elim o [ none ↦ false | some _ ↦ true ] ≡ is_some o
      go none = refl
      go (some r) = refl

  upsert_fix-Represents :
      (f : FixEvent A) (seeded : Bool) (center : Option A) (s : Store A) (v : View A)
      → Represents s v
      → Represents (upsert_fix f seeded center s) (abstract_call (fix_in f seeded center) v).1
  unfolding upsert_fix
  upsert_fix-Represents f true center s v h = record {
    fixes = λ id. lookup-insert id f.fix_id f s.fixes ∙ rw (h.fixes id) refl;
    freqs = λ id. freq_for-upsert_fix id f true center s ∙ rw (h.freqs id) refl;
    seeded = λ id. contains-add id f.fix_id s.seeded_fix_ids ∙ rw (h.seeded id) refl;
    bearings = h.bearings;
    reds = h.reds;
  }
  upsert_fix-Represents f false center s v h = record {
    fixes = λ id. lookup-insert id f.fix_id f s.fixes ∙ rw (h.fixes id) refl;
    freqs = λ id. freq_for-upsert_fix id f false center s ∙ rw (h.freqs id) refl;
    seeded = λ id. h.seeded id ∙ same_place id (Bool-cases (f.fix_id == id));
    bearings = h.bearings;
    reds = h.reds;
  }
    where
      same_place :
          (id : ℕ)
          → ((f.fix_id == id) ≡ true) ⊎ ((f.fix_id == id) ≡ false)
          → v.seeded id ≡ (if f.fix_id == id then v.seeded f.fix_id else v.seeded id)
      same_place id (inl here) = rw here (ap v.seeded (sym (==→eq f.fix_id id here)))
      same_place id (inr there) = rw there refl

  call-Simulates :
      (c : Call A) (s : Store A) (v : View A)
      → Represents s v
      → Simulates (call c s) (abstract_call c v)
  unfolding Simulates call upsert_bearing add_red delete_red clear_reds get_fix freq_for
  call-Simulates (fix_in f seeded center) s v h =
      (refl, upsert_fix-Represents f seeded center s v h)
  call-Simulates (bearing_in b) s v h = (
    refl,
    record {
      fixes = h.fixes;
      freqs = h.freqs;
      seeded = h.seeded;
      bearings = λ k. lookup-insert k (bearing_key b) b s.bearings ∙ rw (h.bearings k) refl;
      reds = h.reds;
    },
  )
  call-Simulates (red_in generated red) s v h = (
    refl,
    record {
      fixes = h.fixes;
      freqs = h.freqs;
      seeded = h.seeded;
      bearings = h.bearings;
      reds = λ j. lookup-insert j _ _ s.reds ∙ rw (h.reds j) refl;
    },
  )
  call-Simulates (red_out id) s v h = (
    ap was_there (has_key-is_some id s.reds ∙ ap is_some (h.reds id)),
    record {
      fixes = h.fixes;
      freqs = h.freqs;
      seeded = h.seeded;
      bearings = h.bearings;
      reds = λ j. lookup-erase j id s.reds ∙ rw (h.reds j) refl;
    },
  )
  call-Simulates reds_out s v h = (
    refl,
    record {
      fixes = h.fixes;
      freqs = h.freqs;
      seeded = h.seeded;
      bearings = h.bearings;
      reds = λ j. refl;
    },
  )
  call-Simulates (fix_of id) s v h = (ap found_fix (h.fixes id), h)
  call-Simulates (freq_of id) s v h = (ap found_freq (h.freqs id), h)
  call-Simulates (seeded_of id) s v h = (ap was_there (h.seeded id), h)

  call_all-Represents :
      (cs : List (Call A)) (s : Store A) (v : View A)
      → Represents s v
      → ((call_all cs s).0 ≡ (abstract_all cs v).0)
        × Represents (call_all cs s).1 (abstract_all cs v).1
  unfolding call_all Simulates
  call_all-Represents [] s v h = (refl, h)
  call_all-Represents (c ∷ cs) s v h =
      let first = call-Simulates c s v h in
      let later = call_all-Represents cs (call c s).1 (abstract_call c v).1 first.1 in
      (ap₂ (λ a as_left. a ∷ as_left) first.0 later.0, later.1)

  make_store-Represents : Represents {A = A} make_store empty_view
  unfolding freq_for
  make_store-Represents = record {
    fixes = λ id. refl;
    freqs = λ id. refl;
    seeded = λ id. refl;
    bearings = λ k. refl;
    reds = λ id. refl;
  }

  -- Whatever calls come in, a store that starts empty answers each as the abstract store of plain
  -- functions does, and at the end it holds, under every id and key, what the abstract store holds.
  pub call_all_refines :
      (cs : List (Call A))
      → ((call_all cs make_store).0 ≡ (abstract_all cs empty_view).0)
        × Represents {A = A} (call_all cs make_store).1 (abstract_all cs empty_view).1
  call_all_refines cs = call_all-Represents cs make_store empty_view make_store-Represents
